-- ===== src/Paths/RoundTrip.antt =====
-- A name goes from Windows to Unix and back: misc.c.
use cifsd.Base.{
  ℕ, ◌+◌, ◌≡◌, ◌≢◌, ◌≤◌, refl, ap, ◌∙◌, false, some, [], ◌∷◌, ◌++◌, ◌==◌, Bool-cases, inl, inr, suc,
  length, if◌then◌else◌, arith, All, length-append,
}
use cifsd.Paths.{
  Text, slash, backslash, cifsd_conv_path_to_unix, cifsd_conv_path_to_windows, behind, nt_pathname,
  convert_to_nt_pathname, ends_in_slash, unslashed, convert_to_unix_name,
}

abbrev pub Lacks : ℕ → Text → Type 0
Lacks c = All (λ x. x ≢ c)

back_again : (s : Text) → Lacks slash s → cifsd_conv_path_to_windows (cifsd_conv_path_to_unix s) ≡ s
unfolding cifsd_conv_path_to_windows cifsd_conv_path_to_unix
back_again [] h = refl
back_again (c ∷ s) h = ground (arith, back_again s h.1)

behind-append : (path rest : Text) → behind path (path ++ rest) ≡ some rest
unfolding behind
behind-append [] rest = refl
behind-append (c ∷ path) rest = ground (arith, behind-append path rest)

behind-joined :
    (path name : Text)
    → ends_in_slash path ≡ false
    → behind path (convert_to_unix_name path name) ≡ some (slash ∷ unslashed name)
unfolding convert_to_unix_name
behind-joined path name e = rw e (behind-append path (slash ∷ unslashed name))

-- The name without the backslash that it may begin with.
abbrev pub unrooted : Text → Text
unrooted [] = []
unrooted (c ∷ rest) = if c == backslash then rest else c ∷ rest

unslashed-unix :
    (w : Text)
    → Lacks slash w
    → unslashed (cifsd_conv_path_to_unix w) ≡ cifsd_conv_path_to_unix (unrooted w)
unfolding unslashed cifsd_conv_path_to_unix
unslashed-unix [] h = refl
unslashed-unix (c ∷ w) h = ground arith

unrooted-Lacks : (w : Text) → Lacks slash w → Lacks slash (unrooted w)
unrooted-Lacks [] h = tt
unrooted-Lacks (c ∷ w) h = elim (Bool-cases (c == backslash)) [
  | inl root ↦ rw root h.1
  | inr other ↦ rw other h
]

length-unix : (s : Text) → length (cifsd_conv_path_to_unix s) ≡ length s
unfolding cifsd_conv_path_to_unix
length-unix [] = refl
length-unix (c ∷ s) = ap suc (length-unix s)

module _ (path w : Text) (h : Lacks slash w) (e : ends_in_slash path ≡ false) where
  rest_of : Text
  rest_of = cifsd_conv_path_to_unix (unrooted w)

  joined : convert_to_unix_name path (cifsd_conv_path_to_unix w) ≡ path ++ (slash ∷ rest_of)
  unfolding convert_to_unix_name rest_of
  joined = rw (e, unslashed-unix w h)

  name_back : (nt_pathname path (some (slash ∷ rest_of))).0 ≡ backslash ∷ unrooted w
  unfolding nt_pathname rest_of cifsd_conv_path_to_windows
  name_back =
      ap (λ s. backslash ∷ s)
        (unfold cifsd_conv_path_to_windows in back_again (unrooted w) (unrooted-Lacks w h))

  bytes_written : (nt_pathname path (some (slash ∷ rest_of))).1 ≡ length (unrooted w) + 2
  unfolding nt_pathname rest_of
  bytes_written = ground (arith, length-unix (unrooted w))

  converted :
      convert_to_nt_pathname (convert_to_unix_name path (cifsd_conv_path_to_unix w)) path
      ≡ nt_pathname path (some (slash ∷ rest_of))
  unfolding convert_to_nt_pathname nt_pathname rest_of
  converted = ap (nt_pathname path) (
      behind-joined path (cifsd_conv_path_to_unix w) e
      ∙ ap (λ s. some (slash ∷ s)) (unslashed-unix w h))

  length-joined :
      length (convert_to_unix_name path (cifsd_conv_path_to_unix w))
      ≡ length path + 1 + length (unrooted w)
  unfolding rest_of
  length-joined =
      ap length joined
      ∙ omega (arith, length-append {0} path (slash ∷ rest_of), length-unix (unrooted w))

-- The Windows name of a file of a share comes back from its Unix path with one backslash in front, if the
-- name has no slash and the path of the share is not empty and does not end in a slash; and what is
-- written then fits the buffer, which is as long as the Unix path.
pub nt_pathname-unix_name :
    (path w : Text)
    → Lacks slash w
    → ends_in_slash path ≡ false
    → 1 ≤ length path
    → let filename = convert_to_unix_name path (cifsd_conv_path_to_unix w) in
      ((convert_to_nt_pathname filename path).0 ≡ backslash ∷ unrooted w)
      × ((convert_to_nt_pathname filename path).1 ≤ length filename)
nt_pathname-unix_name path w h e long =
    let c = converted path w h e in
    let n = name_back path w h e in
    let b = bytes_written path w h e in
    let l = length-joined path w h e in (ap (λ r. r.0) c ∙ n, omega (arith, ap (λ r. r.1) c, b, l))
