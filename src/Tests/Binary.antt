-- ===== src/Tests/Binary.antt =====
-- Concrete documents in the binary record format.
use orientjs.Prelude.{◌≡◌, refl, true, some, [], ◌∷◌, pos, negsuc, inl, inr, arith, none}
use orientjs.Text.{codes}
use orientjs.Buffer.{Bytes}
use orientjs.Binary.{
  null, boolean, integer, string, link, date, array, object, callable, Values, empty, cons, Fields,
  end, field, find,
}
use orientjs.Binary.Hazards.{callable_unreadable}
use orientjs.Binary.Serializer.{is_written, serialize_document, count, count_written}
use orientjs.Binary.Deserializer.{deserialize}
use orientjs.Binary.Kept.{IsKeptObject, AreKept}
use orientjs.Binary.RoundTrip.{size_fields, deserialize-written_document}
use orientjs.Tests.Varint.{runtime, lawful}

abbrev inner : Fields
inner = field (codes "@class") (string (codes "V")) (field (codes "n") (integer (negsuc 2)) end)

abbrev mixed : Values
mixed = cons (boolean true) (cons null (cons (string (codes "e")) (cons (object inner) empty)))

abbrev person : Fields
person = field (codes "@class") (string (codes "P")) (
    field (codes "name") (string (codes "Ann")) (
      field (codes "born") (date (negsuc 86399999)) (
        field (codes "tags") (array mixed) (
          field (codes "friends") (array (cons (link (pos 12) (pos 300)) empty)) (
            field (codes "best") (link (pos 12) (negsuc 1))
              (field (codes "map") (object (field (codes "k") (integer (pos 1)) end)) end))))))

person_bytes :
    serialize_document runtime (field (codes "n") (integer (negsuc 2)) end)
    ≡ some (0 ∷ 2 ∷ 2 ∷ b'n' ∷ 3 ∷ 5 ∷ [])
unfolding serialize_document
person_bytes = refl

mixed_kept : AreKept runtime mixed
unfolding AreKept find count_written
mixed_kept = (tt, (tt, ((refl, omega arith), (inner_kept, tt))))
  where
    inner_kept : IsKeptObject runtime inner
    inner_kept = inl (
      refl,
      (b'V', [], refl, (refl, omega arith)),
      (refl, tt),
      omega arith,
      (refl, (refl, omega arith), omega arith, tt),
    )

map_kept : IsKeptObject runtime (field (codes "k") (integer (pos 1)) end)
unfolding IsKeptObject find count_written count
map_kept = inr ((refl, tt), omega arith, refl, (refl, omega arith), omega arith, tt)

person-IsKept : IsKeptObject runtime person
unfolding IsKeptObject find count_written count
person-IsKept = inl (
  refl,
  (b'P', [], refl, (refl, omega arith)),
  (refl, (refl, (refl, (refl, (refl, (refl, tt)))))),
  omega arith,
  (
    refl,
    (refl, omega arith),
    (refl, omega arith),
    (
      refl,
      (refl, omega arith),
      omega arith,
      (
        refl,
        (refl, omega arith),
        (omega arith, inr (refl, mixed_kept)),
        (
          refl,
          (refl, omega arith),
          (
            omega arith,
            inl (refl, ((pos 12, pos 300, refl, (omega arith, omega arith, refl)), tt)),
          ),
          (
            refl,
            (refl, omega arith),
            (omega arith, omega arith, refl),
            (refl, (refl, omega arith), map_kept, tt),
          ),
        ),
      ),
    ),
  ),
)

deserialize-written_document_example :
    (b : Bytes) × (serialize_document runtime person ≡ some b)
    × (deserialize runtime 5 3 (some b) ≡ some (object person))
deserialize-written_document_example =
    deserialize-written_document runtime lawful person 5 3 person-IsKept
      (unfold size_fields in omega arith) refl

callable_unreadable_example :
    (b : Bytes) × (serialize_document runtime (field (codes "f") callable end) ≡ some b)
    × (deserialize runtime 5 3 (some b) ≡ none)
callable_unreadable_example =
    callable_unreadable runtime lawful (codes "f") 5 3 (refl, omega arith)
      (unfold is_written in refl) refl
