-- ===== src/Libs/Builder.antt =====
-- proxygen::ResponseBuilder, as the calls that are made on it. A builder sends nothing before `send`
-- or `sendWithEOM`, and each of these sends what was given since the last one.
use nozomi.Common.{ℕ, Str, List, [], ◌∷◌}
use nozomi.Libs.{Libs}

pub data BuilderCall (L : Libs) : Type 0 where
  status : ℕ → BuilderCall L
  header : L.HeaderKey → Str → BuilderCall L
  body : L.IOBuf → BuilderCall L
  send : BuilderCall L
  send_with_eom : BuilderCall L

module _ (L : Libs) where
  -- `forEach` with `builder.header(key, value)`.
  abbrev pub header_calls : List (L.HeaderKey × Str) → List (BuilderCall L)
  header_calls [] = []
  header_calls ((key, value) ∷ rest) = header key value ∷ header_calls rest
