-- ===== src/Tests/Names.antt =====
-- Names of settings.
use opentts.Prelude.{◌≡◌, ◌↔◌, [], ◌∷◌, some, arith}
use opentts.Types.{Bytes, child_male}
use opentts.Names.{voice2str, str2voice}
use opentts.Names.Inverse.{str2voice-voice2str}

abbrev some_name : Bytes
some_name = b's' ∷ b'o' ∷ b'm' ∷ b'e' ∷ []

str2voice-voice2str_example :
    (str2voice some_name ≡ child_male) ↔ (voice2str child_male ≡ some some_name)
str2voice-voice2str_example = str2voice-voice2str some_name child_male (λ e. ground (arith, e))
