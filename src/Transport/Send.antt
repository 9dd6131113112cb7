-- ===== src/Transport/Send.antt =====
-- `send` of lib/transport/binary/index.js: the options with which an operation goes out.
use orientjs.Prelude.{
  Bool, true, false, not, ◌||◌, Option, none, some, ◌∷◌, if◌then◌else◌, ℤ, negsuc, eq_ℤ,
}
use orientjs.Text.{Text}
use orientjs.Transport.{Transport}

-- The options of `send` that it looks at, `none` where they are missing.
pub record Options : Type 0 where
  pub session_id : Option ℤ
  pub option_token : Option Text
  pub db : Bool

-- `options.token`, filled in by the token of the transport.
abbrev filled_token : Transport → Options → Option Text
filled_token t o = elim o.option_token [
  | some (c ∷ k) ↦ some (c ∷ k)
  | _ ↦ if t.use_token then t.token else o.option_token
]

abbrev or_session : Option ℤ → ℤ → ℤ
or_session none z = z
or_session (some y) z = y

abbrev has_session : Option ℤ → Bool
has_session none = false
has_session (some z) = true

-- `send`: the operation goes out with these options, or `connect` is called first.
pub data SendAnswer : Type 0 where
  goes_out : Options → SendAnswer
  connects_first : Options → SendAnswer

unfoldable pub send : Options → Transport → SendAnswer
send o t =
    let filled = record o { option_token = filled_token t o } in
    if not (eq_ℤ t.session (negsuc 0)) || has_session o.session_id
    then goes_out (record filled { session_id = some (or_session o.session_id t.session) })
    else connects_first filled

-- The options once the transport is connected.
unfoldable pub send_connected : Options → Transport → Options
send_connected o t = record o {
  option_token = t.token;
  session_id = some (or_session o.session_id t.session);
}

-- The options with which an operation is sent again after a connection error: with a database, the
-- session that its `open` gives; else with none, and no token.
unfoldable pub resend_options : ℤ → Options → Options
resend_options opened o =
    if o.db
    then record o { session_id = some opened }
    else record o { session_id = none; option_token = none }
