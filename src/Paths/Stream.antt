-- ===== src/Paths/Stream.antt =====
-- parse_stream_name of misc.c takes a name apart at its colons.
use cifsd.Base.{ℕ, ◌≡◌, refl, ap, ◌∙◌, true, some, [], ◌∷◌, ◌++◌, map, arith}
use cifsd.Paths.{
  Text, colon, strsep, cifsd_validate_stream_name, parsed, data_stream, data_type, starts_with,
  typed_stream, stream_parts, file_parts, parse_stream_name,
}
use cifsd.Paths.RoundTrip.{Lacks}

strsep-found : (c : ℕ) (s rest : Text) → Lacks c s → strsep c (s ++ (c ∷ rest)) ≡ (s, some rest)
unfolding strsep
strsep-found c [] rest h = ground arith
strsep-found c (x ∷ s) rest h = ground (arith, strsep-found c s rest h.1)

starts_with_same :
    (tolower : ℕ → ℕ) (prefix s : Text)
    → map tolower s ≡ map tolower prefix
    → starts_with tolower prefix s ≡ true
unfolding starts_with
starts_with_same tolower [] s e = refl
starts_with_same tolower (c ∷ prefix) [] e = absurd (ground (arith, e))
starts_with_same tolower (c ∷ prefix) (x ∷ s) e =
    ground (arith, e, starts_with_same tolower prefix s)

valid-Lacks : (s : Text) → cifsd_validate_stream_name s ≡ true → Lacks colon s
unfolding cifsd_validate_stream_name
valid-Lacks [] h = tt
valid-Lacks (c ∷ s) h = (ground arith, valid-Lacks s (ground arith))

module _ (tolower : ℕ → ℕ) where
  typed_data :
      (file stream ty : Text)
      → cifsd_validate_stream_name stream ≡ true
      → map tolower ty ≡ map tolower data_type
      → typed_stream tolower file stream ty ≡ parsed file stream (some data_stream)
  unfolding typed_stream
  typed_data file stream ty v e = ground (arith, v, starts_with_same tolower data_type ty e)

  -- A file name without a colon, a stream name that is allowed and the type $DATA, in small or capital
  -- letters, joined by colons, are parsed as that file, that stream and a data stream.
  pub parse_stream_name-join :
      (file stream ty : Text)
      → Lacks colon file
      → cifsd_validate_stream_name stream ≡ true
      → map tolower ty ≡ map tolower data_type
      → parse_stream_name tolower (file ++ (colon ∷ (stream ++ (colon ∷ ty))))
        ≡ parsed file stream (some data_stream)
  unfolding parse_stream_name
  parse_stream_name-join file stream ty h v e =
      ap (file_parts tolower) (strsep-found colon file (stream ++ (colon ∷ ty)) h)
      ∙ ap (stream_parts tolower file) (strsep-found colon stream ty (valid-Lacks stream v))
      ∙ typed_data file stream ty v e
