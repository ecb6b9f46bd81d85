-- ===== src/Files/Sanitizing.antt =====
-- sanitizePath, under the documented behaviour of Boost's relative paths.
use nozomi.Common.{
  str_eq_of_ne, ◌≡◌, sym, ap, ◌∙◌, ◌≢◌, inl, inr, List, [], ◌∷◌, ◌++◌, append-nil, append_assoc,
  Bool-cases, All, All-append, Str, codes, str_eq, str_eq_iff,
}
use nozomi.Libs.{Libs}
use nozomi.Files.{add_components, sanitize_path}

abbrev pub drop_last : List Str → List Str
drop_last [] = []
drop_last (c ∷ []) = []
drop_last (c ∷ d ∷ p) = c ∷ drop_last (d ∷ p)

-- A component that is neither `.` nor `..`.
abbrev pub IsName : Str → Type 0
IsName c = (c ≢ codes "..") × (c ≢ codes ".")

drop_last-All : (p : List Str) → All IsName p → All IsName (drop_last p)
drop_last-All [] h = tt
drop_last-All (c ∷ []) h = tt
drop_last-All (c ∷ d ∷ p) (h, hs) = (h, drop_last-All (d ∷ p) hs)

module _ (L : Libs) where
  -- The components of a path that is built: none at first, one more for each that is appended, and
  -- one less when the file name is removed. `IsRelative` is what may be appended as one component.
  pub record PathLaws (IsRelative : Str → Type 0) : Type 0 where
    pub components-empty : L.components L.empty_path ≡ []
    pub components-append :
        (p : L.FilePath) (c : Str)
        → IsRelative c
        → L.components (L.append p c) ≡ L.components p ++ c ∷ []
    pub components-remove_filename :
        (p : L.FilePath) → L.components (L.remove_filename p) ≡ drop_last (L.components p)

  module _ (IsRelative : Str → Type 0) (P : PathLaws IsRelative) where
    add_components-IsName :
        (cs : List Str) (ret : L.FilePath)
        → All IsRelative cs
        → All IsName (L.components ret)
        → All IsName (L.components (add_components L cs ret))
    unfolding add_components
    add_components-IsName [] ret r h = h
    add_components-IsName (c ∷ cs) ret (r, rs) h = elim (Bool-cases (str_eq c (codes ".."))) [
      | inl up ↦
          rw (up, add_components)
            (add_components-IsName cs (L.remove_filename ret) rs
              (rw (P.components-remove_filename ret) (drop_last-All (L.components ret) h)))
      | inr e ↦ elim (Bool-cases (str_eq c (codes "."))) [
        | inl here ↦ rw (e, add_components, here) (add_components-IsName cs ret rs h)
        | inr e' ↦
            rw (e, add_components, e')
              (add_components-IsName cs (L.append ret c) rs (
                rw (P.components-append ret c r) (
                  All-append IsName (L.components ret) (c ∷ []) h (
                    (
                      (λ same. cc (e, (str_eq_iff c (codes "..")).1 same)),
                      (λ same. cc (e', (str_eq_iff c (codes ".")).1 same)),
                    ),
                    tt,
                  ))))
      ]
    ]

    add_components-append :
        (cs : List Str) (ret : L.FilePath)
        → All IsRelative cs
        → All IsName cs
        → L.components (add_components L cs ret) ≡ L.components ret ++ cs
    unfolding add_components
    add_components-append [] ret r h = sym (append-nil _)
    add_components-append (c ∷ cs) ret (r, rs) ((up, here), h) =
        rw (str_eq_of_ne c (codes "..") up, add_components, str_eq_of_ne c (codes ".") here)
          (add_components-append cs (L.append ret c) rs h
            ∙ ap (λ p. p ++ cs) (P.components-append ret c r)
            ∙ append_assoc (L.components ret) (c ∷ []) cs)

    -- A sanitized relative path has no component `.` or `..`, so that it cannot leave the directory
    -- that it is joined to; and a path that has none of them keeps its components.
    -- It is assumed that paths behave as documented, and that each component of the path may be
    -- appended.
    pub sanitize_path-IsName :
        (path : Str)
        → All IsRelative (L.components (L.to_path path))
        → All IsName (L.components (sanitize_path L path))
          × (All IsName (L.components (L.to_path path))
              → L.components (sanitize_path L path) ≡ L.components (L.to_path path))
    unfolding sanitize_path
    sanitize_path-IsName path r = (
      add_components-IsName (L.components (L.to_path path)) L.empty_path r
          (rw P.components-empty tt),
      λ names.
          add_components-append (L.components (L.to_path path)) L.empty_path r names
          ∙ ap (λ p. p ++ L.components (L.to_path path)) P.components-empty,
    )
