-- ===== src/Examples/Requests.antt =====
-- Requests, responses and configurations.
use nozomi.Common.{
  [], ℕ, zero, suc, ◌^◌, ◌≡◌, refl, ap, true, false, none, some, List, ◌∷◌, arith, length, All, Str,
  codes, Exception, invalid_argument, out_of_range, ok, err, pos, str_eq,
}
use nozomi.Libs.Sample.{chain, sample}
use nozomi.Http.{response_of_string, get_status_code, get_body_string}
use nozomi.Http.Text.{to_string, to_string-flatten, to_string_overflow}
use nozomi.Http.Building.{response_of_string_lem}
use nozomi.Config.{make_config, Config, make_config_by_default, get_request_timeout}
use nozomi.Config.Laws.{IsStored, make_config-IsStored, make_config-ok}
use nozomi.Examples.Laws.{sample_messages, sample_buffers}

to_string-flatten_example :
    to_string sample (chain (codes "ab" ∷ codes "c" ∷ [])) ≡ ok (codes "abc")
to_string-flatten_example =
    to_string-flatten sample (chain (codes "ab" ∷ codes "c" ∷ [])) (omega arith)

fill : ℕ → Str
fill zero = []
fill (suc n) = 0 ∷ fill n

length-fill : (n : ℕ) → length (fill n) ≡ n
unfolding fill
length-fill zero = refl
length-fill (suc n) = ap suc (length-fill n)

to_string_overflow_example :
    to_string sample (chain (fill (2 ^ 31) ∷ codes "c" ∷ [])) ≡ err out_of_range
to_string_overflow_example =
    to_string_overflow sample (chain (fill (2 ^ 31) ∷ codes "c" ∷ [])) (fill (2 ^ 31)) (codes "c")
      [] refl (omega (arith, length-fill (2 ^ 31))) (omega (arith, length-fill (2 ^ 31)))

abbrev hello_headers : List (ℕ × Str)
hello_headers = (5, codes "text") ∷ (6, codes "en") ∷ []

response_of_string_lem_example :
    let r = response_of_string sample 404 (codes "hello") hello_headers in
    (get_status_code sample r ≡ 404)
    × (get_body_string sample r ≡ ok (codes "hello"))
    × All (λ kv. sample.get_single_or_empty r.message kv.0 ≡ kv.1) hello_headers
response_of_string_lem_example =
    response_of_string_lem sample sample_messages sample_buffers 404 (codes "hello") hello_headers
      (omega arith) (omega arith) (omega arith)

abbrev pub local : Str × ℕ
local = (codes "127.0.0.1", 80)

abbrev pub served : Config sample
served = record {
  http_addresses = (local, 1) ∷ [];
  worker_threads = 2;
  public_dir = codes "public" ∷ [];
  request_timeout = pos 30000;
  file_reader_buffer_size = 4096;
  add_public_directory_handler = true;
}

pub make_config_runs :
    make_config sample ((local, 1) ∷ []) 2 (some (codes "public")) (pos 30000) 4096 ≡ ok served
unfolding make_config str_eq
make_config_runs = refl

make_config-IsStored_example :
    IsStored sample ((local, 1) ∷ []) 2 (some (codes "public")) (pos 30000) 4096 served
make_config-IsStored_example =
    make_config-IsStored sample ((local, 1) ∷ []) 2 (some (codes "public")) (pos 30000) 4096 served
      make_config_runs

make_config-ok_example :
    (c : Config sample) × (make_config sample
        ((local, 1) ∷ [])
        2
        (some (codes "public"))
        (pos 30000)
        4096
      ≡ ok c)
unfolding str_eq
make_config-ok_example =
    make_config-ok sample ((local, 1) ∷ []) 2 (some (codes "public")) (pos 30000) 4096 (cc)
      (omega arith) refl (omega arith) (omega arith) (codes "public" ∷ [], refl, refl, refl)

abbrev no_threads : Exception
no_threads = invalid_argument (codes "Number of threads (0) must be greater than zero")

no_threads_runs : make_config sample ((local, 1) ∷ []) 0 none (pos 1) 1 ≡ err no_threads
unfolding make_config str_eq
no_threads_runs = refl

default_config_runs :
    (c : Config sample) × (make_config_by_default sample ((local, 1) ∷ []) 2 ≡ ok c)
    × (get_request_timeout sample c ≡ pos 30000)
    × (c.add_public_directory_handler ≡ false)
unfolding make_config
default_config_runs = (_, refl, refl, refl)
