-- ===== src/Paths/Tests.antt =====
-- Witnesses for names.
use cifsd.Base.{
  ℕ, ◌+◌, ◌&&◌, leb, if◌then◌else◌, ◌≡◌, ◌≤◌, refl, length, true, false, some, [], ◌∷◌, ◌++◌, arith,
}
use cifsd.Paths.{
  Text, backslash, colon, data_stream, parsed, parse_stream_name, cifsd_conv_path_to_unix,
  convert_to_nt_pathname, convert_to_unix_name, cifsd_validate_stream_name, ends_in_slash,
  extract_sharename, behind_last,
}
use cifsd.Paths.RoundTrip.{unrooted, nt_pathname-unix_name}
use cifsd.Paths.Stream.{parse_stream_name-join}

-- "/s", and "d\\f"
abbrev share_path : Text
share_path = b'/' ∷ b's' ∷ []

abbrev file_name : Text
file_name = b'd' ∷ backslash ∷ b'f' ∷ []

share_path_open : ends_in_slash share_path ≡ false
unfolding ends_in_slash
share_path_open = refl

nt_pathname-unix_name_example :
    let filename = convert_to_unix_name share_path (cifsd_conv_path_to_unix file_name) in
    ((convert_to_nt_pathname filename share_path).0 ≡ backslash ∷ unrooted file_name)
    × ((convert_to_nt_pathname filename share_path).1 ≤ length filename)
nt_pathname-unix_name_example =
    nt_pathname-unix_name share_path file_name (omega arith) share_path_open (omega arith)

-- "f:s:$DATA"
stream_allowed : cifsd_validate_stream_name (b's' ∷ []) ≡ true
unfolding cifsd_validate_stream_name
stream_allowed = refl

-- The kernel's tolower on the ASCII letters.
abbrev ascii_lower : ℕ → ℕ
ascii_lower c = if leb 65 c && leb c 90 then c + 32 else c

-- "$DATA", as clients send it
abbrev capital_type : Text
capital_type = 36 ∷ 68 ∷ 65 ∷ 84 ∷ 65 ∷ []

parse_stream_name-join_example :
    parse_stream_name ascii_lower ((b'f' ∷ []) ++ (colon ∷ ((b's' ∷ []) ++ (colon ∷ capital_type))))
    ≡ parsed (b'f' ∷ []) (b's' ∷ []) (some data_stream)
parse_stream_name-join_example =
    parse_stream_name-join ascii_lower (b'f' ∷ []) (b's' ∷ []) capital_type (omega arith)
      stream_allowed refl

last_part : extract_sharename (backslash ∷ backslash ∷ b'h' ∷ backslash ∷ b's' ∷ []) ≡ b's' ∷ []
unfolding extract_sharename behind_last
last_part = refl
