-- ===== src/Libs/Laws.antt =====
-- Documented behaviour of proxygen's messages and folly's buffers, as records of hypotheses.
use nozomi.Common.{◌-◌, take, drop, length, ◌≤◌, ◌∷◌, [], ℕ, ◌^◌, ◌<◌, Str, ◌≡◌, ◌≢◌, ◌++◌, flatten}
use nozomi.Libs.{Libs}

module _ (L : Libs) where
  -- What is set on a message is read back, and the setters do not disturb one another.
  pub record MessageLaws : Type 0 where
    pub status-set :
        (m : L.Message) (s : ℕ) → s < 2 ^ 16 → L.get_status_code (L.set_status_code m s) ≡ s
    pub status-set_header :
        (m : L.Message) (k : L.HeaderKey) (v : Str)
        → L.get_status_code (L.set_header m k v) ≡ L.get_status_code m
    pub header-set_self :
        (m : L.Message) (k : L.HeaderKey) (v : Str)
        → L.get_single_or_empty (L.set_header m k v) k ≡ v
    pub header-set_ne :
        (m : L.Message) (k j : L.HeaderKey) (v : Str)
        → k ≢ j
        → L.get_single_or_empty (L.set_header m k v) j ≡ L.get_single_or_empty m j

  -- The bytes of a chain: none in a new buffer, all of a copied string, the same in a clone;
  -- `prependChain` on the head of a chain puts the other chain at its end.
  pub record BufferLaws : Type 0 where
    pub bytes-create : flatten (L.chunks (L.create 0)) ≡ []
    pub bytes-copy_buffer : (s : Str) → flatten (L.chunks (L.copy_buffer s)) ≡ s
    pub bytes-clone : (b : L.IOBuf) → flatten (L.chunks (L.clone b)) ≡ flatten (L.chunks b)
    pub bytes-prepend_chain :
        (a b : L.IOBuf)
        → flatten (L.chunks (L.prepend_chain a b)) ≡ flatten (L.chunks a) ++ flatten (L.chunks b)

  -- A buffer that is filled by hand. A new one is empty, and has at least the room that was asked for;
  -- `append` makes room at the end a part of the data, whatever the memory holds; a write replaces the
  -- first bytes; and `trimEnd` drops the last ones.
  pub record FillLaws : Type 0 where
    pub chunks-create : (n : ℕ) → L.chunks (L.create n) ≡ [] ∷ []
    pub tailroom-create : (n : ℕ) → n ≤ L.tailroom (L.create n)
    pub chunks-append_room :
        (b : L.IOBuf) (s : Str)
        → L.chunks b ≡ s ∷ []
        → (t : Str) × (length t ≡ L.tailroom b)
          × (L.chunks (L.append_room b (L.tailroom b)) ≡ (s ++ t) ∷ [])
    pub chunks-write_data :
        (b : L.IOBuf) (s text : Str)
        → L.chunks b ≡ s ∷ []
        → length text ≤ length s
        → L.chunks (L.write_data b text) ≡ (text ++ drop (length text) s) ∷ []
    pub chunks-trim_end :
        (b : L.IOBuf) (s : Str) (k : ℕ)
        → L.chunks b ≡ s ∷ []
        → k ≤ length s
        → L.chunks (L.trim_end b k) ≡ take (length s - k) s ∷ []
