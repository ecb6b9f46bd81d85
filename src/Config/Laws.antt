-- ===== src/Config/Laws.antt =====
-- What the constructors of Config accept, and what they store.
use nozomi.Common.{
  [], what, ℕ, ◌^◌, ◌≤◌, ◌<◌, ◌≡◌, refl, ◌≢◌, true, false, Option, none, some, List, ◌∷◌, arith,
  is_set, value_or, Str, Exception, invalid_argument, ok, err, ℤ, is_positive, ◌∙◌, ◌++◌,
  append-nil, append_assoc,
}
use nozomi.Libs.{Libs}
use nozomi.Config.{
  Config, IpConfig, make_config, find_public_dir, get_public_directory, resolve,
  make_config_from_hosts,
}

module _ (L : Libs) where
  -- The configuration has no public directory, or the canonical path of the one that is named.
  abbrev pub HasPublicDir : Option Str → Config L → Type 0
  HasPublicDir none c = get_public_directory L c ≡ none
  HasPublicDir (some path) c =
      (get_public_directory L c ≡ some c.public_dir)
      × (L.canonical (L.to_path path) ≡ ok c.public_dir)
      × (L.is_directory c.public_dir ≡ ok true)

  find_public_dir_sound :
      (path : Str) (full : L.FilePath)
      → find_public_dir L path ≡ ok full
      → (L.canonical (L.to_path path) ≡ ok full) × (L.is_directory full ≡ ok true)
  unfolding find_public_dir
  find_public_dir_sound path full h = ground arith

  pub record IsStored (addresses : List (IpConfig L)) (threads : ℕ) (dir : Option Str) (timeout : ℤ)
      (size : ℕ) (c : Config L) : Type 0 where
    pub addresses_kept : c.http_addresses ≡ addresses
    pub some_address : addresses ≢ []
    pub threads_kept : c.worker_threads ≡ threads
    pub some_thread : 0 < threads
    pub timeout_kept : c.request_timeout ≡ timeout
    pub timeout_positive : is_positive timeout ≡ true
    pub size_kept : c.file_reader_buffer_size ≡ size
    pub size_positive : 0 < size
    pub size_bounded : size ≤ 2 ^ 30
    pub dir_found : HasPublicDir dir c

  -- A configuration that was accepted holds the settings that were given, and they are in range: some
  -- address, some thread, a positive timeout, a buffer of 1 byte to 1 GiB, and, where a public
  -- directory is named, its canonical path, which is a directory.
  pub make_config-IsStored :
      (addresses : List (IpConfig L)) (threads : ℕ) (dir : Option Str) (timeout : ℤ) (size : ℕ)
      (c : Config L)
      → make_config L addresses threads dir timeout size ≡ ok c
      → IsStored addresses threads dir timeout size c
  unfolding make_config get_public_directory
  make_config-IsStored [] threads dir timeout size c h = cc
  make_config-IsStored (a ∷ rest) threads none timeout size c h = ground arith
  make_config-IsStored (a ∷ rest) threads (some path) timeout size c h =
      ground (arith, find_public_dir_sound path c.public_dir)

  -- What a public directory must be for the constructors to take it: a path with a canonical form
  -- that is a directory. The canonical form of a path is never itself a link.
  abbrev pub IsUsableDir : Option Str → Type 0
  IsUsableDir none = Unit
  IsUsableDir (some path) =
      (full : L.FilePath) × (L.canonical (L.to_path path) ≡ ok full)
      × (L.is_symlink full ≡ ok false)
      × (L.is_directory full ≡ ok true)

  accepted : List (IpConfig L) → ℕ → Option L.FilePath → ℤ → ℕ → Config L
  accepted addresses threads dir timeout size = record {
    http_addresses = addresses;
    worker_threads = threads;
    public_dir = value_or dir (L.to_path []);
    request_timeout = timeout;
    file_reader_buffer_size = size;
    add_public_directory_handler = is_set dir;
  }

  -- Every configuration whose settings are in range is accepted.
  -- In range means: some address, some thread, a positive timeout, a buffer of 1 byte to 1 GiB,
  -- and, where a public directory is named, a canonical path that is a directory and no link.
  pub make_config-ok :
      (addresses : List (IpConfig L)) (threads : ℕ) (dir : Option Str) (timeout : ℤ) (size : ℕ)
      → addresses ≢ []
      → 0 < threads
      → is_positive timeout ≡ true
      → 0 < size
      → size ≤ 2 ^ 30
      → IsUsableDir dir
      → (c : Config L) × (make_config L addresses threads dir timeout size ≡ ok c)
  unfolding make_config find_public_dir accepted
  make_config-ok [] threads dir timeout size some_address _ _ _ _ _ = absurd (some_address refl)
  make_config-ok (a ∷ rest) threads none timeout size _ t p s b _ =
      (accepted (a ∷ rest) threads none timeout size, ground arith)
  make_config-ok (a ∷ rest) threads (some path) timeout size _ t p s b (full, e, l, d) =
      (accepted (a ∷ rest) threads (some full) timeout size, ground arith)

  -- A refusal is always an `std::invalid_argument`.
  pub make_config-err :
      (addresses : List (IpConfig L)) (threads : ℕ) (dir : Option Str) (timeout : ℤ) (size : ℕ)
      (e : Exception)
      → make_config L addresses threads dir timeout size ≡ err e
      → e ≡ invalid_argument (what e)
  unfolding make_config
  make_config-err [] threads dir timeout size e h = ground arith
  make_config-err (a ∷ rest) threads none timeout size e h = ground arith
  make_config-err (a ∷ rest) threads (some path) timeout size e h = ground arith

  -- Each host and port resolves to the address at its place.
  abbrev pub ResolvesTo : List (Str × ℕ × L.Protocol) → List (IpConfig L) → Type 0
  ResolvesTo [] [] = Unit
  ResolvesTo [] (_ ∷ _) = ⊥
  ResolvesTo (_ ∷ _) [] = ⊥
  ResolvesTo ((host, port, protocol) ∷ hosts) ((address, p) ∷ addresses) =
      (L.socket_address host port ≡ ok address) × (p ≡ protocol) × ResolvesTo hosts addresses

  resolve_lem :
      (hosts : List (Str × ℕ × L.Protocol)) (addresses done : List (IpConfig L))
      → ResolvesTo hosts addresses
      → resolve L hosts done ≡ ok (done ++ addresses)
  unfolding resolve
  resolve_lem [] [] done h = rw append-nil refl
  resolve_lem [] (a ∷ addresses) done h = absurd h
  resolve_lem (host ∷ hosts) [] done h = absurd h
  resolve_lem ((host, port, protocol) ∷ hosts) ((address, p) ∷ addresses) done (e, same, h) =
      rw (e, same)
        (resolve_lem hosts addresses (done ++ (address, protocol) ∷ []) h ∙ (rw append_assoc refl))

  -- The constructor from hosts and ports is the one from addresses, on what they resolve to, in
  -- their order. It is assumed that each of them resolves.
  pub make_config_from_hosts-make_config :
      (hosts : List (Str × ℕ × L.Protocol)) (addresses : List (IpConfig L)) (threads : ℕ)
      (dir : Option Str) (timeout : ℤ) (size : ℕ)
      → ResolvesTo hosts addresses
      → make_config_from_hosts L hosts threads dir timeout size
        ≡ make_config L addresses threads dir timeout size
  unfolding make_config_from_hosts
  make_config_from_hosts-make_config hosts addresses threads dir timeout size h =
      rw (resolve_lem hosts addresses [] h) refl
