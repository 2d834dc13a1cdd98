-- ===== src/Snapshots/Names.antt =====
-- src/recovery/book_snapshot.cpp: the names of the files. A text is the list of its bytes.
use itch_feed_handler.Common.{
  ℕ, zero, suc, ◌-◌, ◌≡◌, arith, refl, ap, Bool, true, false, ◌&&◌, ◌||◌, Option, none, some, List,
  [], ◌∷◌, ◌++◌, length, take, drop, ◌==◌, if◌then◌else◌,
}
use itch_feed_handler.Mold.{Session}

abbrev pub Text : Type 0
Text = List ℕ

-- The text without the bytes at its end that a test holds for.
abbrev pub is_empty : Text → Bool
is_empty [] = true
is_empty (x ∷ s) = false

abbrev pub trim_end : (ℕ → Bool) → Text → Text
trim_end test [] = []
trim_end test (x ∷ s) =
    let rest = trim_end test s in if test x && is_empty rest then [] else x ∷ rest

abbrev pub is_space : ℕ → Bool
is_space x = x == b' '

abbrev pub is_newline : ℕ → Bool
is_newline x = (x == 10) || (x == 13)

-- The ten bytes of a session.
abbrev pub session_text : Session → Text
session_text s = s.c0 ∷ s.c1 ∷ s.c2 ∷ s.c3 ∷ s.c4 ∷ s.c5 ∷ s.c6 ∷ s.c7 ∷ s.c8 ∷ s.c9 ∷ []

-- `trim_session`
unfoldable pub trim_session : Session → Text
trim_session s = trim_end is_space (session_text s)

-- `replace_token`, for a token that is not empty: `skip` bytes of a token are still to be left out.
abbrev pub starts_with : Text → Text → Bool
starts_with [] s = true
starts_with (x ∷ token) [] = false
starts_with (x ∷ token) (y ∷ s) = (x == y) && starts_with token s

unfoldable pub replace_from : Text → Text → ℕ → Text → Text
replace_from token value skip [] = []
replace_from token value (suc skip) (x ∷ s) = replace_from token value skip s
replace_from token value zero (x ∷ s) =
    let replaced = replace_from token value (length token - 1) s in
    let kept = replace_from token value zero s in
    if starts_with token (x ∷ s) then value ++ replaced else x ∷ kept

unfoldable pub replace_token : Text → Text → Text → Text
replace_token s token value = replace_from token value 0 s

-- `std::string::rfind`
unfoldable pub rfind : ℕ → Text → Option ℕ
rfind c [] = none
rfind c (x ∷ s) = elim (rfind c s) [
  | some i ↦ some (suc i)
  | none ↦ if x == c then some 0 else none
]

-- `insert_suffix`
unfoldable pub insert_suffix : Text → Text → Text
insert_suffix path suffix = elim (rfind b'.' path) [
  | none ↦ path ++ suffix
  | some dot ↦ take dot path ++ suffix ++ drop dot path
]

-- `BookSnapshot`, with the members that its constructor sets.
pub record BookSnapshot : Type 0 where
  pub dir : Text
  pub tmpl : Text

-- `"{session}"` and `"{timestamp}"`
abbrev session_token : Text
session_token = b'{' ∷ b's' ∷ b'e' ∷ b's' ∷ b's' ∷ b'i' ∷ b'o' ∷ b'n' ∷ b'}' ∷ []

abbrev timestamp_token : Text
timestamp_token = b'{' ∷ b't' ∷ b'i' ∷ b'm' ∷ b'e' ∷ b's' ∷ b't' ∷ b'a' ∷ b'm' ∷ b'p' ∷ b'}' ∷ []

-- `BookSnapshot::make_path`, with the time as `std::to_string` writes it.
unfoldable pub make_path : BookSnapshot → Session → Text → Text
make_path b session ts =
    let filename = replace_token b.tmpl session_token (trim_session session) in
    b.dir ++ b'/' ∷ replace_token filename timestamp_token ts

-- `BookSnapshot::latest_ptr_path` and `BookSnapshot::latest_eod_ptr_path`
abbrev pub latest_name : Text
latest_name = b'/' ∷ b'l' ∷ b'a' ∷ b't' ∷ b'e' ∷ b's' ∷ b't' ∷ b'.' ∷ b'p' ∷ b't' ∷ b'r' ∷ []

abbrev pub latest_eod_name : Text
latest_eod_name =
    b'/' ∷ b'l' ∷ b'a' ∷ b't' ∷ b'e' ∷ b's' ∷ b't' ∷ b'_' ∷ b'e' ∷ b'o' ∷ b'd' ∷ b'.' ∷ b'p' ∷ b't'
    ∷ b'r' ∷ []

abbrev pub latest_ptr_path : BookSnapshot → Text
latest_ptr_path b = b.dir ++ latest_name

abbrev pub latest_eod_ptr_path : BookSnapshot → Text
latest_eod_ptr_path b = b.dir ++ latest_eod_name

-- `"_EOD"`
abbrev pub eod_suffix : Text
eod_suffix = b'_' ∷ b'E' ∷ b'O' ∷ b'D' ∷ []

-- A byte at the end that the test holds for makes no difference.
pub trim_end-append :
    (test : ℕ → Bool) (s : Text) (x : ℕ)
    → test x ≡ true
    → trim_end test (s ++ x ∷ []) ≡ trim_end test s
trim_end-append test [] x h = rw h refl
trim_end-append test (y ∷ s) x h = rw (trim_end-append test s x h) refl

rfind-append :
    (c : ℕ) (stem ext : Text) → rfind c ext ≡ none → rfind c (stem ++ c ∷ ext) ≡ some (length stem)
unfolding rfind
rfind-append c [] ext h = rw h (ground arith)
rfind-append c (x ∷ stem) ext h = rw (rfind-append c stem ext h) refl

take-append : (s t : Text) → take (length s) (s ++ t) ≡ s
take-append [] t = refl
take-append (x ∷ s) t = ap (λ r. x ∷ r) (take-append s t)

drop-append : (s t : Text) → drop (length s) (s ++ t) ≡ t
drop-append [] t = refl
drop-append (x ∷ s) t = drop-append s t

-- The suffix goes in front of the extension.
insert_suffix-extension :
    (stem ext suffix : Text)
    → rfind b'.' ext ≡ none
    → insert_suffix (stem ++ b'.' ∷ ext) suffix ≡ stem ++ suffix ++ b'.' ∷ ext
unfolding insert_suffix
insert_suffix-extension stem ext suffix h =
    rw
      (
        insert_suffix,
        rfind-append b'.' stem ext h,
        take-append stem (b'.' ∷ ext),
        drop-append stem (b'.' ∷ ext),
      )
      refl
