-- ===== src/Paths.antt =====
-- Names of files, streams and shares: misc.c. A string is the list of its bytes, without the NUL; memory
-- is there, the kernel's tolower is a parameter.
pub mod RoundTrip
pub mod Stream
mod Tests
use cifsd.Base.{
  ℕ, ◌+◌, ◌-◌, ◌*◌, ◌/◌, Bool, true, false, not, ◌&&◌, ◌||◌, Option, none, some, List, [], ◌∷◌,
  ◌++◌, map, ltb, leb, ◌==◌, length, is_empty, if◌then◌else◌, sub32,
}

abbrev pub Text : Type 0
Text = List ℕ

abbrev pub slash : ℕ
slash = b'/'

abbrev pub backslash : ℕ
backslash = 92

abbrev pub colon : ℕ
colon = b':'

pub is_char_allowed : ℕ → Bool
is_char_allowed ch = not (
    ltb ch 0x80
    && (leb ch 0x1f
        || (ch == b'?'
            || (ch == 34 || (ch == b'<' || (ch == b'>' || (ch == b'|' || ch == b'*')))))))

-- `false` is -ENOENT.
pub cifsd_validate_filename : Text → Bool
unfolding is_char_allowed
cifsd_validate_filename [] = true
cifsd_validate_filename (c ∷ rest) = is_char_allowed c && cifsd_validate_filename rest

pub cifsd_validate_stream_name : Text → Bool
cifsd_validate_stream_name [] = true
cifsd_validate_stream_name (c ∷ rest) =
    not (c == slash || (c == colon || c == backslash)) && cifsd_validate_stream_name rest

pub strreplace : Text → ℕ → ℕ → Text
strreplace s old new = map (λ c. if c == old then new else c) s

unfoldable pub cifsd_conv_path_to_unix : Text → Text
unfolding strreplace
cifsd_conv_path_to_unix path = strreplace path backslash slash

unfoldable pub cifsd_conv_path_to_windows : Text → Text
unfolding strreplace
cifsd_conv_path_to_windows path = strreplace path slash backslash

-- strsep: the text before the first `c`, and the one behind it if there is a `c`.
pub strsep : ℕ → Text → Text × Option Text
strsep c [] = ([], none)
strsep c (x ∷ rest) =
    let (token, more) = strsep c rest in if x == c then ([], some rest) else (x ∷ token, more)

-- What of `name` is behind the prefix `s`, as strncmp and the index find it.
pub behind : Text → Text → Option Text
behind [] name = some name
behind (c ∷ s) [] = none
behind (c ∷ s) (x ∷ name) = if c == x then behind s name else none

pub data StreamType : Type 0 where
  data_stream dir_stream : StreamType

-- The file, the name and the type of its stream, if the type is given; -ENOENT; or a text without a
-- colon, for which strchr reads a null pointer.
pub data Parsed : Type 0 where
  parsed : Text → Text → Option StreamType → Parsed
  no_entry null_pointer : Parsed

-- "$data" and "$index_allocation"
abbrev pub data_type : Text
data_type = 36 ∷ 100 ∷ 97 ∷ 116 ∷ 97 ∷ []

abbrev pub index_type : Text
index_type =
    36 ∷ 105 ∷ 110 ∷ 100 ∷ 101 ∷ 120 ∷ 95 ∷ 97 ∷ 108 ∷ 108 ∷ 111 ∷ 99 ∷ 97 ∷ 116 ∷ 105 ∷ 111 ∷ 110
    ∷ []

module _ (tolower : ℕ → ℕ) where
  -- strncasecmp(prefix, s, strlen(prefix)) == 0
  pub starts_with : Text → Text → Bool
  starts_with [] s = true
  starts_with (c ∷ prefix) [] = false
  starts_with (c ∷ prefix) (x ∷ s) = tolower c == tolower x && starts_with prefix s

  pub typed_stream : Text → Text → Text → Parsed
  unfolding starts_with cifsd_validate_stream_name
  typed_stream file s_name stream_type =
      if not (cifsd_validate_stream_name s_name)
      then no_entry
      else if starts_with data_type stream_type
      then parsed file s_name (some data_stream)
      else if starts_with index_type stream_type
      then parsed file s_name (some dir_stream)
      else no_entry

  pub stream_parts : Text → Text × Option Text → Parsed
  unfolding typed_stream
  stream_parts file (s_name, none) = parsed file s_name none
  stream_parts file (s_name, some stream_type) = typed_stream file s_name stream_type

  pub file_parts : Text × Option Text → Parsed
  unfolding stream_parts strsep
  file_parts (file, none) = null_pointer
  file_parts (file, some s_name) = stream_parts file (strsep colon s_name)

  pub parse_stream_name : Text → Parsed
  unfolding file_parts
  parse_stream_name filename = file_parts (strsep colon filename)

-- The name of the buffer of strlen(filename) bytes that is given back, and how many bytes are written.
pub nt_pathname : Text → Option Text → Text × ℕ
unfolding cifsd_conv_path_to_windows
nt_pathname filename none = (backslash ∷ [], 2)
nt_pathname filename (some rest) =
    if is_empty rest
    then (backslash ∷ [], 2)
    else (cifsd_conv_path_to_windows rest, if ltb 1 (length rest) then length rest + 1 else 2)

pub convert_to_nt_pathname : Text → Text → Text × ℕ
unfolding nt_pathname behind
convert_to_nt_pathname filename sharepath = nt_pathname filename (behind sharepath filename)

pub ends_in_slash : Text → Bool
ends_in_slash [] = false
ends_in_slash (c ∷ []) = c == slash
ends_in_slash (c ∷ d ∷ rest) = ends_in_slash (d ∷ rest)

pub unslashed : Text → Text
unslashed [] = []
unslashed (c ∷ rest) = if c == slash then rest else c ∷ rest

-- The path of the share is not empty.
pub convert_to_unix_name : Text → Text → Text
unfolding ends_in_slash unslashed
convert_to_unix_name path name =
    if ends_in_slash path then path ++ unslashed name else path ++ (slash ∷ unslashed name)

-- strrchr for the backslash
pub behind_last : Text → Option Text
behind_last [] = none
behind_last (c ∷ rest) = elim (behind_last rest) [
  | some name ↦ some name
  | none ↦ if c == backslash then some rest else none
]

pub extract_sharename : Text → Text
unfolding behind_last
extract_sharename treename = elim (behind_last treename) [ some name ↦ name | none ↦ treename ]

-- convname_updatenextoffset behind the conversion, which gave `units` units of two bytes, with the
-- alignment 7: the length of the name and where the next entry starts, or `none` where it would not fit.
pub next_entry : ℕ → ℕ → ℕ → Bool → Option (ℕ × ℕ)
next_entry units size buf_len no_namelen_field =
    let name_len = if no_namelen_field then units * 2 + 2 else units * 2 in
    let offset = (size - 1 + name_len + 7) / 8 * 8 in
    if ltb buf_len offset then none else some (name_len, offset)
