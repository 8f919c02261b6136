-- ===== src/Names.antt =====
-- The names of settings: src/libs/common/fdsetconv.c. The values that stand for an error, -1, are `none`.
pub mod Inverse
use opentts.Prelude.{Bool, List, [], ◌∷◌, Option, none, some, if◌then◌else◌}
use opentts.Types.{
  Bytes, VoiceType, no_voice, male1, male2, male3, female1, female2, female3, child_male,
  child_female, Punctuation, punct_none, punct_all, punct_some, Spelling, spell_on, spell_off,
  CapitalLetters, cap_none, cap_spell, cap_icon, Priority, important, message, text, notification,
  progress,
}
use opentts.Settings.{same_text}

abbrev pub voice2str : VoiceType → Option Bytes
voice2str male1 = some (b'm' ∷ b'a' ∷ b'l' ∷ b'e' ∷ b'1' ∷ [])
voice2str male2 = some (b'm' ∷ b'a' ∷ b'l' ∷ b'e' ∷ b'2' ∷ [])
voice2str male3 = some (b'm' ∷ b'a' ∷ b'l' ∷ b'e' ∷ b'3' ∷ [])
voice2str female1 = some (b'f' ∷ b'e' ∷ b'm' ∷ b'a' ∷ b'l' ∷ b'e' ∷ b'1' ∷ [])
voice2str female2 = some (b'f' ∷ b'e' ∷ b'm' ∷ b'a' ∷ b'l' ∷ b'e' ∷ b'2' ∷ [])
voice2str female3 = some (b'f' ∷ b'e' ∷ b'm' ∷ b'a' ∷ b'l' ∷ b'e' ∷ b'3' ∷ [])
voice2str child_male =
    some (b'c' ∷ b'h' ∷ b'i' ∷ b'l' ∷ b'd' ∷ b'_' ∷ b'm' ∷ b'a' ∷ b'l' ∷ b'e' ∷ [])
voice2str child_female =
    some (b'c' ∷ b'h' ∷ b'i' ∷ b'l' ∷ b'd' ∷ b'_' ∷ b'f' ∷ b'e' ∷ b'm' ∷ b'a' ∷ b'l' ∷ b'e' ∷ [])
voice2str no_voice = none

unfoldable pub str2voice : Bytes → VoiceType
str2voice b =
    if same_text b (b'm' ∷ b'a' ∷ b'l' ∷ b'e' ∷ b'1' ∷ [])
    then male1
    else if same_text b (b'm' ∷ b'a' ∷ b'l' ∷ b'e' ∷ b'2' ∷ [])
    then male2
    else if same_text b (b'm' ∷ b'a' ∷ b'l' ∷ b'e' ∷ b'3' ∷ [])
    then male3
    else if same_text b (b'f' ∷ b'e' ∷ b'm' ∷ b'a' ∷ b'l' ∷ b'e' ∷ b'1' ∷ [])
    then female1
    else if same_text b (b'f' ∷ b'e' ∷ b'm' ∷ b'a' ∷ b'l' ∷ b'e' ∷ b'2' ∷ [])
    then female2
    else if same_text b (b'f' ∷ b'e' ∷ b'm' ∷ b'a' ∷ b'l' ∷ b'e' ∷ b'3' ∷ [])
    then female3
    else if same_text b (b'c' ∷ b'h' ∷ b'i' ∷ b'l' ∷ b'd' ∷ b'_' ∷ b'm' ∷ b'a' ∷ b'l' ∷ b'e' ∷ [])
    then child_male
    else if same_text b
        (b'c' ∷ b'h' ∷ b'i' ∷ b'l' ∷ b'd' ∷ b'_' ∷ b'f' ∷ b'e' ∷ b'm' ∷ b'a' ∷ b'l' ∷ b'e' ∷ [])
    then child_female
    else no_voice

abbrev pub punct2str : Punctuation → Option Bytes
punct2str punct_none = some (b'n' ∷ b'o' ∷ b'n' ∷ b'e' ∷ [])
punct2str punct_all = some (b'a' ∷ b'l' ∷ b'l' ∷ [])
punct2str punct_some = some (b's' ∷ b'o' ∷ b'm' ∷ b'e' ∷ [])

unfoldable pub str2punct : Bytes → Option Punctuation
str2punct b =
    if same_text b (b'n' ∷ b'o' ∷ b'n' ∷ b'e' ∷ [])
    then some punct_none
    else if same_text b (b'a' ∷ b'l' ∷ b'l' ∷ [])
    then some punct_all
    else if same_text b (b's' ∷ b'o' ∷ b'm' ∷ b'e' ∷ [])
    then some punct_some
    else none

abbrev pub spell2str : Spelling → Option Bytes
spell2str spell_on = some (b'o' ∷ b'n' ∷ [])
spell2str spell_off = some (b'o' ∷ b'f' ∷ b'f' ∷ [])

unfoldable pub str2spell : Bytes → Option Spelling
str2spell b =
    if same_text b (b'o' ∷ b'n' ∷ [])
    then some spell_on
    else if same_text b (b'o' ∷ b'f' ∷ b'f' ∷ [])
    then some spell_off
    else none

abbrev pub recogn2str : CapitalLetters → Option Bytes
recogn2str cap_none = some (b'n' ∷ b'o' ∷ b'n' ∷ b'e' ∷ [])
recogn2str cap_spell = some (b's' ∷ b'p' ∷ b'e' ∷ b'l' ∷ b'l' ∷ [])
recogn2str cap_icon = some (b'i' ∷ b'c' ∷ b'o' ∷ b'n' ∷ [])

unfoldable pub str2recogn : Bytes → Option CapitalLetters
str2recogn b =
    if same_text b (b'n' ∷ b'o' ∷ b'n' ∷ b'e' ∷ [])
    then some cap_none
    else if same_text b (b's' ∷ b'p' ∷ b'e' ∷ b'l' ∷ b'l' ∷ [])
    then some cap_spell
    else if same_text b (b'i' ∷ b'c' ∷ b'o' ∷ b'n' ∷ [])
    then some cap_icon
    else none

unfoldable pub str2priority : Bytes → Option Priority
str2priority b =
    if same_text b (b'i' ∷ b'm' ∷ b'p' ∷ b'o' ∷ b'r' ∷ b't' ∷ b'a' ∷ b'n' ∷ b't' ∷ [])
    then some important
    else if same_text b (b'm' ∷ b'e' ∷ b's' ∷ b's' ∷ b'a' ∷ b'g' ∷ b'e' ∷ [])
    then some message
    else if same_text b (b't' ∷ b'e' ∷ b'x' ∷ b't' ∷ [])
    then some text
    else if same_text b
        (b'n' ∷ b'o' ∷ b't' ∷ b'i' ∷ b'f' ∷ b'i' ∷ b'c' ∷ b'a' ∷ b't' ∷ b'i' ∷ b'o' ∷ b'n' ∷ [])
    then some notification
    else if same_text b (b'p' ∷ b'r' ∷ b'o' ∷ b'g' ∷ b'r' ∷ b'e' ∷ b's' ∷ b's' ∷ [])
    then some progress
    else none
