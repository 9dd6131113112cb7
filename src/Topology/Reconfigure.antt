-- ===== src/Topology/Reconfigure.antt =====
-- The addresses of a cluster after `_reconfigureServers` of lib/client/topology/cluster.js.
use orientjs.Prelude.{
  ℕ, ◌+◌, ◌≡◌, sym, ap, ◌∙◌, inl, inr, Bool, true, false, List, [], ◌∷◌, arith, if◌then◌else◌,
  Bool-cases, refl, Option, ◌++◌, ◌==◌, All,
}
use Prim.Native.Nat.{min, max}
use orientjs.Text.{Text, text_eq, text_eq_iff}
use orientjs.Transport.{before_colon, behind_colon}
use orientjs.Topology.{
  Server, new_server, address, Mapped, set_key, delete_key, entry, mapped, without_known,
  new_servers, connect, connect_by, connect_all, reconfigure, Promise, no_promise, pending,
  resolved, rejected,
}

abbrev pub one_if : Bool → ℕ
one_if true = 1
one_if false = 0

-- How often a text stands in a list.
unfoldable pub times : Text → List Text → ℕ
times a [] = 0
times a (t ∷ ts) = one_if (text_eq t a) + times a ts

abbrev pub addresses : List Server → List Text
addresses [] = []
addresses (s ∷ ss) = address s ∷ addresses ss

abbrev keys : Mapped → List Text
keys [] = []
keys ((k, v) ∷ m) = k ∷ keys m

-- Equal texts are equal to the same texts.
text_eq_same : (j k a : Text) → text_eq j k ≡ true → text_eq j a ≡ text_eq k a
text_eq_same j k a h = let e : j ≡ k = (text_eq_iff j k).0 h in ap (λ t. text_eq t a) e

text_eq_other : (j k a : Text) → text_eq j k ≡ false → text_eq k a ≡ true → text_eq j a ≡ false
text_eq_other j k a h e = let same : k ≡ a = (text_eq_iff k a).0 e in ap (text_eq j) (sym same) ∙ h

times-set_key :
    (a k : Text) (v : Text × Text) (m : Mapped)
    → times a (keys (set_key k v m))
      ≡ (if text_eq k a then max 1 (times a (keys m)) else times a (keys m))
unfolding times set_key
times-set_key a k v [] = ground arith
times-set_key a k v ((j, w) ∷ m) = elim (Bool-cases (text_eq j k)) [
  | inl e ↦ rw (e, text_eq_same j k a e) (ground arith)
  | inr e ↦ rw (e, times-set_key a k v m) (ground (arith, text_eq_other j k a e))
]

times-mapped :
    (parse_int : Option Text → Text) (a : Text) (cfg : List Text) (acc : Mapped)
    → times a (keys (mapped parse_int cfg acc))
      ≡ (if times a (keys acc) == 0 then min 1 (times a cfg) else times a (keys acc))
unfolding mapped times
times-mapped parse_int a [] acc = ground arith
times-mapped parse_int a (c ∷ cfg) acc =
    let next = set_key c (entry parse_int c) acc in
    let more = times-set_key a c (entry parse_int c) acc in
    times-mapped parse_int a cfg next ∙ elim (Bool-cases (text_eq c a)) [
      | inl e ↦ rw e (ground (arith, rw e at more))
      | inr e ↦ rw e (ground (arith, rw e at more))
    ]

times-delete_key :
    (a k : Text) (m : Mapped)
    → times a (keys (delete_key k m)) ≡ (if text_eq k a then 0 else times a (keys m))
unfolding times delete_key
times-delete_key a k [] = ground arith
times-delete_key a k ((j, w) ∷ m) = elim (Bool-cases (text_eq j k)) [
  | inl e ↦ rw (e, times-delete_key a k m, text_eq_same j k a e) (ground arith)
  | inr e ↦ rw (e, times-delete_key a k m) (ground (arith, text_eq_other j k a e))
]

times-without_known :
    (a : Text) (ss : List Server) (m : Mapped)
    → times a (keys (without_known ss m))
      ≡ (if times a (addresses ss) == 0 then times a (keys m) else 0)
unfolding times without_known
times-without_known a [] m = refl
times-without_known a (s ∷ ss) m =
    let less = times-delete_key a (address s) m in
    times-without_known a ss (delete_key (address s) m)
    ∙ elim (Bool-cases (text_eq (address s) a)) [
      | inl e ↦ rw e (ground (arith, rw e at less))
      | inr e ↦ rw e (ground (arith, rw e at less))
    ]

-- The address is that of the host and the port that are read from it.
abbrev pub IsAddress : (Option Text → Text) → Text → Type 0
IsAddress parse_int a = before_colon a ++ (b':' ∷ parse_int (behind_colon a)) ≡ a

abbrev AreNamed : Mapped → Type 0
AreNamed m = All (λ e. (e.1).0 ++ (b':' ∷ (e.1).1) ≡ e.0) m

AreNamed-set_key :
    (k : Text) (v : Text × Text) (m : Mapped)
    → v.0 ++ (b':' ∷ v.1) ≡ k
    → AreNamed m
    → AreNamed (set_key k v m)
unfolding set_key
AreNamed-set_key k v [] h n = (h, tt)
AreNamed-set_key k v ((j, w) ∷ m) h (n, ns) = elim (Bool-cases (text_eq j k)) [
  | inl e ↦ rw e (h ∙ sym ((text_eq_iff j k).0 e), ns)
  | inr e ↦ rw e (n, AreNamed-set_key k v m h ns)
]

AreNamed-mapped :
    (parse_int : Option Text → Text) (cfg : List Text) (acc : Mapped)
    → All (IsAddress parse_int) cfg
    → AreNamed acc
    → AreNamed (mapped parse_int cfg acc)
unfolding mapped
AreNamed-mapped parse_int [] acc h n = n
AreNamed-mapped parse_int (c ∷ cfg) acc (h, hs) n =
    AreNamed-mapped parse_int cfg (set_key c (entry parse_int c) acc) hs
      (AreNamed-set_key c (entry parse_int c) acc h n)

AreNamed-delete_key : (k : Text) (m : Mapped) → AreNamed m → AreNamed (delete_key k m)
unfolding delete_key
AreNamed-delete_key k [] n = n
AreNamed-delete_key k ((j, w) ∷ m) (n, ns) = elim (Bool-cases (text_eq j k)) [
  | inl e ↦ rw e (AreNamed-delete_key k m ns)
  | inr e ↦ rw e (n, AreNamed-delete_key k m ns)
]

AreNamed-without_known :
    (ss : List Server) (m : Mapped) → AreNamed m → AreNamed (without_known ss m)
unfolding without_known
AreNamed-without_known [] m n = n
AreNamed-without_known (s ∷ ss) m n =
    AreNamed-without_known ss (delete_key (address s) m) (AreNamed-delete_key (address s) m n)

addresses-new_servers : (m : Mapped) → AreNamed m → addresses (new_servers m) ≡ keys m
unfolding new_servers new_server
addresses-new_servers [] n = refl
addresses-new_servers ((k, (h, p)) ∷ m) (n, ns) =
    ap (λ t. t ∷ addresses (new_servers m)) n ∙ ap (◌∷◌ k) (addresses-new_servers m ns)

address-connect : (s : Server) → address (connect s) ≡ address s
unfolding connect
address-connect s = go s.connecting
  where
    go : (p : Promise) → address (connect_by p s) ≡ address s
    go no_promise = refl
    go pending = refl
    go resolved = refl
    go rejected = refl

address_kept : (b : Bool) (s : Server) → address (if b then s else connect s) ≡ address s
address_kept true s = refl
address_kept false s = address-connect s

addresses-connect_all : (ss : List Server) → addresses (connect_all ss) ≡ addresses ss
addresses-connect_all [] = refl
addresses-connect_all (s ∷ ss) =
    ap (λ t. t ∷ addresses (connect_all ss)) (address_kept s.connected s)
    ∙ ap (◌∷◌ (address s)) (addresses-connect_all ss)

addresses-append : (ss rs : List Server) → addresses (ss ++ rs) ≡ addresses ss ++ addresses rs
addresses-append [] rs = refl
addresses-append (s ∷ ss) rs = ap (◌∷◌ (address s)) (addresses-append ss rs)

times-append : (a : Text) (xs ys : List Text) → times a (xs ++ ys) ≡ times a xs + times a ys
unfolding times
times-append a [] ys = omega arith
times-append a (x ∷ xs) ys = omega (arith, times-append a xs ys)

-- Where each address that the cluster reports is that of the host and the port that are read from
-- it, then after `_reconfigureServers` an address that a server had before stands there as often
-- as before, a reported one that none had stands there once, and no other does.
pub times-reconfigure :
    (parse_int : Option Text → Text) (cfg : List Text) (ss : List Server) (a : Text)
    → All (IsAddress parse_int) cfg
    → times a (addresses (reconfigure parse_int cfg ss))
      ≡ (if times a (addresses ss) == 0 then min 1 (times a cfg) else times a (addresses ss))
unfolding reconfigure
times-reconfigure parse_int cfg ss a h =
    let m = mapped parse_int cfg [] in
    let named = AreNamed-without_known ss m (AreNamed-mapped parse_int cfg [] h tt) in
    let all : times a (keys m) ≡ min 1 (times a cfg) =
      times-mapped parse_int a cfg [] ∙ unfold times in refl in
    ap (times a) (
      addresses-connect_all (ss ++ new_servers (without_known ss m))
      ∙ addresses-append ss (new_servers (without_known ss m))
      ∙ ap (λ l. addresses ss ++ l) (addresses-new_servers (without_known ss m) named))
    ∙ times-append a (addresses ss) (keys (without_known ss m))
    ∙ ground (arith, times-without_known a ss m, all)
