-- ===== src/Examples/Laws.antt =====
-- The sample libraries satisfy the documented behaviour.
use nozomi.Common.{
  ℕ, zero, suc, ◌-◌, ◌++◌, ◌≡◌, ap, length, List, ◌∷◌, [], Str, take, drop, flatten-append, refl,
  append-nil, arith, ==_iff,
}
use nozomi.Libs.Sample.{sample, roomy, zeros, on_first}
use nozomi.Libs.Laws.{MessageLaws, BufferLaws, FillLaws}

pub sample_messages : MessageLaws sample
sample_messages = record {
  status-set = λ m s h. refl;
  status-set_header = λ m k v. refl;
  header-set_self = λ m k v. rw ((==_iff k k).1 refl);
  header-set_ne = λ m k j v h. ground (arith, ==_iff k j);
}

pub roomy_buffers : (extra : ℕ) → BufferLaws (roomy extra)
roomy_buffers extra = record {
  bytes-create = refl;
  bytes-copy_buffer = λ s. append-nil s;
  bytes-clone = λ b. refl;
  bytes-prepend_chain = λ a b. flatten-append a.chunks b.chunks;
}

pub sample_buffers : BufferLaws sample
sample_buffers = roomy_buffers 0

length-zeros : (n : ℕ) → length (zeros n) ≡ n
length-zeros zero = refl
length-zeros (suc n) = ap suc (length-zeros n)

pub zeros_behind :
    (texts : List Str) (s : Str) (k : ℕ)
    → texts ≡ s ∷ []
    → (t : Str) × (length t ≡ k) × (on_first (λ r. r ++ zeros k) texts ≡ (s ++ t) ∷ [])
zeros_behind texts s k e = (zeros k, length-zeros k, ap (on_first (λ r. r ++ zeros k)) e)

pub sample_fills : (extra : ℕ) → FillLaws (roomy extra)
sample_fills extra = record {
  chunks-create = λ n. refl;
  tailroom-create = λ n. omega arith;
  chunks-append_room = λ b s e. zeros_behind b.chunks s b.room e;
  chunks-write_data = λ b s text e h. ap (on_first (λ r. text ++ drop (length text) r)) e;
  chunks-trim_end = λ b s k e h. ap (on_first (λ r. take (length r - k) r)) e;
}
