-- ===== src/IndexMarks.antt =====
-- Index marks: src/server/index_marking.c and index_marking.h. A text is valid UTF-8. None of the bytes
-- that the code looks for stands inside a longer character, whose bytes are copied one by one here.
-- Whether a text starts with a space, `g_unichar_isspace`, is a parameter, `isspace`.
pub mod Stripped
use opentts.Prelude.{
  ℕ, zero, suc, ◌+◌, ◌/◌, ◌%◌, Bool, true, false, not, ◌&&◌, ◌||◌, List, [], ◌∷◌, ◌++◌, Option,
  none, some, ◌==◌, ltb, if◌then◌else◌,
}
use opentts.Types.{Bytes, DataMode, data_text, data_ssml}

-- SD_MARK_HEAD and SD_MARK_TAIL.
abbrev pub mark_head : Bytes
mark_head =
    b'<' ∷ b'm' ∷ b'a' ∷ b'r' ∷ b'k' ∷ b' ' ∷ b'n' ∷ b'a' ∷ b'm' ∷ b'e' ∷ b'=' ∷ b'"' ∷ b'_' ∷ b'_'
    ∷ b's' ∷ b'p' ∷ b'd' ∷ b'_' ∷ []

abbrev pub mark_tail : Bytes
mark_tail = b'"' ∷ b'/' ∷ b'>' ∷ []

abbrev pub speak_start : Bytes
speak_start = b'<' ∷ b's' ∷ b'p' ∷ b'e' ∷ b'a' ∷ b'k' ∷ b'>' ∷ []

abbrev pub speak_end : Bytes
speak_end = b'<' ∷ b'/' ∷ b's' ∷ b'p' ∷ b'e' ∷ b'a' ∷ b'k' ∷ b'>' ∷ []

-- "%d" of a number that has at most `fuel` digits.
unfoldable pub digits : ℕ → ℕ → Bytes
digits zero n = []
digits (suc fuel) n =
    let front = digits fuel (n / 10) in
    if ltb n 10 then (b'0' + n) ∷ [] else front ++ (b'0' + n % 10) ∷ []

unfoldable pub index_mark : ℕ → Bytes
unfolding digits
index_mark n = mark_head ++ digits (suc n) n ++ mark_tail

-- "<", ">" and "&" become entities in a text that is not SSML.
abbrev pub less_than : DataMode → Bytes
less_than data_ssml = b'<' ∷ []
less_than data_text = b'&' ∷ b'l' ∷ b't' ∷ b';' ∷ []

abbrev pub greater_than : DataMode → Bytes
greater_than data_ssml = b'>' ∷ []
greater_than data_text = b'&' ∷ b'g' ∷ b't' ∷ b';' ∷ []

abbrev pub ampersand : DataMode → Bool → Bytes
ampersand data_ssml inside_tag = b'&' ∷ []
ampersand data_text false = b'&' ∷ b'a' ∷ b'm' ∷ b'p' ∷ b';' ∷ []
ampersand data_text true = []

abbrev pub is_ssml : DataMode → Bool
is_ssml data_ssml = true
is_ssml data_text = false

abbrev pub ends_sentence : ℕ → Bool
ends_sentence c = c == b'.' || c == b'?' || c == b'!'

module _ (isspace : Bytes → Bool) where
  -- Is there a place for a mark in front of this text?
  abbrev pub goes_on : Bytes → Bool
  goes_on [] = false
  goes_on (d ∷ rest) = isspace (d ∷ rest) || d == b'<' || d == b'&'

  -- The loop of `insert_index_marks`: the number of the next mark is `n`.
  unfoldable pub insert_from : DataMode → Bool → ℕ → Bytes → Bytes
  unfolding index_mark
  insert_from mode inside_tag n [] = []
  insert_from mode inside_tag n (c ∷ rest) = elim (c == b'<') [
    | true ↦ less_than mode ++ insert_from mode (is_ssml mode || inside_tag) n rest
    | false ↦ elim (c == b'>') [
      | true ↦ greater_than mode ++ insert_from mode (not (is_ssml mode) && inside_tag) n rest
      | false ↦ elim (c == b'&') [
        | true ↦ ampersand mode inside_tag ++ insert_from mode inside_tag n rest
        | false ↦ elim (ends_sentence c && not inside_tag && goes_on rest) [
          | true ↦ c ∷ index_mark n ++ insert_from mode inside_tag (suc n) rest
          | false ↦ c ∷ insert_from mode inside_tag n rest
        ]
      ]
    ]
  ]

  unfoldable pub insert_index_marks : DataMode → Bytes → Bytes
  unfolding insert_from
  insert_index_marks data_ssml buf = insert_from data_ssml false 0 buf
  insert_index_marks data_text buf = speak_start ++ insert_from data_text false 0 buf ++ speak_end

-- The text behind a prefix.
abbrev pub behind : Bytes → Bytes → Option Bytes
behind [] b = some b
behind (x ∷ xs) [] = none
behind (x ∷ xs) (y ∷ ys) = elim (y == x) [ true ↦ behind xs ys | false ↦ none ]

-- The text behind the first place where `strstr` finds another.
unfoldable pub behind_first : Bytes → Bytes → Option Bytes
behind_first x [] = behind x []
behind_first x (c ∷ cs) = elim (behind x (c ∷ cs)) [
  | some rest ↦ some rest
  | none ↦ behind_first x cs
]

unfoldable pub find_index_mark : Bytes → ℕ → Option Bytes
unfolding behind_first index_mark
find_index_mark buf mark = behind_first (index_mark mark) buf

abbrev pub starts_with : Bytes → Bytes → Bool
starts_with x b = elim (behind x b) [ none ↦ false | some rest ↦ true ]

-- The loop of `strip_index_marks`. In a mark, up to its ">", nothing is copied.
unfoldable pub strip_from : Bool → Bytes → Bytes
strip_from in_mark [] = []
strip_from true (c ∷ cs) = elim (c == b'>') [
  | true ↦ strip_from false cs
  | false ↦ strip_from true cs
]
strip_from false (c ∷ cs) = elim (starts_with mark_head (c ∷ cs)) [
  | true ↦ strip_from true cs
  | false ↦ c ∷ strip_from false cs
]

-- The text in front of the first "</speak>".
unfoldable pub cut_speak_end : Bytes → Bytes
cut_speak_end [] = []
cut_speak_end (c ∷ cs) = elim (starts_with speak_end (c ∷ cs)) [
  | true ↦ []
  | false ↦ c ∷ cut_speak_end cs
]

unfoldable pub strip_index_marks : Bytes → DataMode → Bytes
unfolding strip_from cut_speak_end
strip_index_marks buf data_ssml = speak_start ++ strip_from false buf
strip_index_marks buf data_text = cut_speak_end (strip_from false buf)
