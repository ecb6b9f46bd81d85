-- ===== src/Config.antt =====
-- Config.h and Config.cpp.
pub mod Laws
use nozomi.Common.{
  [], what, rethrow, system_error, ℕ, zero, ◌*◌, Bool, true, false, not, ◌||◌, Option, none, some,
  List, ◌∷◌, ◌++◌, ltb, ◌==◌, if◌then◌else◌, Str, codes, Exception, invalid_argument, Result, ok,
  err, ◌>>=◌, ◌>>◌, ℤ, pos, is_positive,
}
use nozomi.Libs.{Libs}

-- kDefaultFileReaderBufferSize and kDefaultRequestTimeoutMs.
abbrev pub default_file_reader_buffer_size : ℕ
default_file_reader_buffer_size = 4096

abbrev pub default_request_timeout_ms : ℤ
default_request_timeout_ms = pos 30000

module _ (L : Libs) where
  -- proxygen::HTTPServer::IPConfig
  abbrev pub IpConfig : Type 0
  IpConfig = L.SocketAddress × L.Protocol

  -- class Config; a timeout is its count of milliseconds.
  pub record Config : Type 0 where
    pub http_addresses : List IpConfig
    pub worker_threads : ℕ
    pub public_dir : L.FilePath
    pub request_timeout : ℤ
    pub file_reader_buffer_size : ℕ
    pub add_public_directory_handler : Bool

module _ (L : Libs) where
  set_http_addresses : List (IpConfig L) → Config L → Result (Config L)
  set_http_addresses [] config =
      err (invalid_argument (codes "At least one address must be provided"))
  set_http_addresses (a ∷ rest) config = ok (record config { http_addresses = a ∷ rest })

  set_worker_threads : ℕ → Config L → Result (Config L)
  set_worker_threads worker_threads config =
      if worker_threads == 0
      then err (
          invalid_argument (
            codes "Number of threads ("
            ++ L.format_int (pos worker_threads)
            ++ codes ") must be greater than zero"))
      else ok (record config { worker_threads = worker_threads })

  set_request_timeout : ℤ → Config L → Result (Config L)
  set_request_timeout request_timeout config =
      if not (is_positive request_timeout)
      then err (
          invalid_argument (
            codes "Timeout ("
            ++ L.format_int request_timeout
            ++ codes ") must be greater than zero milliseconds"))
      else ok (record config { request_timeout = request_timeout })

  set_file_reader_buffer_size : ℕ → Config L → Result (Config L)
  set_file_reader_buffer_size size config =
      if size == 0 || ltb (1024 * 1024 * 1024) size
      then err (
          invalid_argument (
            codes "The file reader buffer size ("
            ++ L.format_int (pos size)
            ++ codes ") must be > 0 and less than 1GB"))
      else ok (record config { file_reader_buffer_size = size })

  -- The condition under which setPublicDir refuses a canonical path; `&&` and `||` stop early.
  is_unusable : L.FilePath → Result Bool
  is_unusable full_path = do
    symlink ← L.is_symlink full_path
    dangling ←
        if symlink
        then (do target ← L.read_symlink full_path; d ← L.is_directory target; ok (not d))
        else ok false
    if dangling then ok true else (do d ← L.is_directory full_path; ok (not d))

  -- The body of the `try` of setPublicDir.
  find_public_dir : Str → Result L.FilePath
  unfolding is_unusable
  find_public_dir path = do
    full_path ← L.canonical (L.to_path path)
    unusable ← is_unusable full_path
    if unusable then err (invalid_argument (codes "Path must be a directory")) else ok full_path

  set_public_dir : Option Str → Config L → Result (Config L)
  unfolding find_public_dir
  set_public_dir none config =
      ok (record config { add_public_directory_handler = false; public_dir = L.to_path [] })
  set_public_dir (some path) config = do
    full_path ← rethrow (find_public_dir path) (λ e.
        invalid_argument (codes "Could not use public directory " ++ path ++ codes ": " ++ what e))
    ok (record config { add_public_directory_handler = true; public_dir = full_path })

  -- The members before the setters run.
  blank : Config L
  blank = record {
    http_addresses = [];
    worker_threads = 0;
    public_dir = L.to_path [];
    request_timeout = pos 0;
    file_reader_buffer_size = 0;
    add_public_directory_handler = false;
  }

  -- The constructor from addresses.
  unfoldable pub make_config : List (IpConfig L) → ℕ → Option Str → ℤ → ℕ → Result (Config L)
  unfolding blank set_http_addresses set_worker_threads set_public_dir set_request_timeout
      set_file_reader_buffer_size
  make_config addresses threads dir timeout size = do
    c ← set_http_addresses addresses blank
    c ← set_worker_threads threads c
    c ← set_public_dir dir c
    c ← set_request_timeout timeout c
    set_file_reader_buffer_size size c

  -- `catch (const std::system_error& e)`: other exceptions pass.
  abbrev as_invalid_argument : Exception → Exception
  as_invalid_argument (system_error text) = invalid_argument text
  as_invalid_argument e = e

  -- The loop of the constructor from host, port and protocol.
  resolve : List (Str × ℕ × L.Protocol) → List (IpConfig L) → Result (List (IpConfig L))
  resolve [] done = ok done
  resolve ((host, port, protocol) ∷ rest) done = do
    address ← rethrow (L.socket_address host port) as_invalid_argument
    resolve rest (done ++ (address, protocol) ∷ [])

  pub make_config_from_hosts :
      List (Str × ℕ × L.Protocol) → ℕ → Option Str → ℤ → ℕ → Result (Config L)
  unfolding resolve
  make_config_from_hosts hosts threads dir timeout size = do
    addresses ← resolve hosts []
    make_config addresses threads dir timeout size

  -- The constructors with their default arguments.
  abbrev pub make_config_by_default : List (IpConfig L) → ℕ → Result (Config L)
  make_config_by_default addresses threads =
      make_config addresses threads none default_request_timeout_ms default_file_reader_buffer_size

  abbrev pub make_config_from_hosts_by_default : List (Str × ℕ × L.Protocol) → ℕ → Result (Config L)
  make_config_from_hosts_by_default hosts threads =
      make_config_from_hosts hosts threads none default_request_timeout_ms
        default_file_reader_buffer_size

  -- The getters.
  abbrev pub get_worker_threads : Config L → ℕ
  get_worker_threads config = config.worker_threads

  abbrev pub get_http_addresses : Config L → List (IpConfig L)
  get_http_addresses config = config.http_addresses

  abbrev pub get_request_timeout : Config L → ℤ
  get_request_timeout config = config.request_timeout

  abbrev pub get_file_reader_buffer_size : Config L → ℕ
  get_file_reader_buffer_size config = config.file_reader_buffer_size

  -- getPublicDirectory
  pub get_public_directory : Config L → Option L.FilePath
  get_public_directory config =
      if config.add_public_directory_handler then some config.public_dir else none
