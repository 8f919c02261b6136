-- ===== src/Tests/IndexMarks.antt =====
-- Marks in a text.
use opentts.Prelude.{◌≡◌, refl, ◌==◌, ◌++◌, Bool, false, [], ◌∷◌}
use opentts.Types.{Bytes, data_text}
use opentts.IndexMarks.{
  digits, index_mark, insert_from, insert_index_marks, speak_start, speak_end, strip_index_marks,
}
use opentts.IndexMarks.Stripped.{entities, strip_index_marks-insert_index_marks}

abbrev space : Bytes → Bool
space [] = false
space (c ∷ rest) = c == b' '

-- "a. <"
abbrev sentence : Bytes
sentence = b'a' ∷ b'.' ∷ b' ' ∷ b'<' ∷ []

sentence_marked :
    insert_index_marks space data_text sentence
    ≡ speak_start ++ b'a' ∷ b'.' ∷ index_mark 0 ++ b' ' ∷ b'&' ∷ b'l' ∷ b't' ∷ b';' ∷ speak_end
unfolding insert_index_marks insert_from index_mark digits
sentence_marked = refl

strip_index_marks-insert_index_marks_example :
    strip_index_marks (insert_index_marks space data_text sentence) data_text
    ≡ speak_start ++ entities sentence
strip_index_marks-insert_index_marks_example = strip_index_marks-insert_index_marks space sentence
