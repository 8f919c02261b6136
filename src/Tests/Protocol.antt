-- ===== src/Tests/Protocol.antt =====
-- Runs of commands.
use opentts.Prelude.{◌≡◌, refl, true, [], ◌∷◌, map, leb, ◌&&◌, ◌+◌, if◌then◌else◌, arith}
use opentts.Prelude.Int.{pos}
use opentts.Types.{Bytes}
use opentts.Connections.{connection_new}
use opentts.Protocol.Groups.{SeparateBlocks, blocks-SeparateBlocks}
use opentts.Protocol.Words.{line}
use opentts.Protocol.{get_param, nth_word, isanum, parse_block}
use opentts.Tests.Samples.{demo, first_client, second_client}

-- Letters to lower case.
abbrev lower : Bytes → Bytes
lower = map (λ c. if leb b'A' c && leb c b'Z' then c + 32 else c)

abbrev cancel_word : Bytes
cancel_word = b'C' ∷ b'A' ∷ b'N' ∷ b'C' ∷ b'E' ∷ b'L' ∷ []

abbrev who_word : Bytes
who_word = b'S' ∷ b'e' ∷ b'l' ∷ b'f' ∷ []

demo-SeparateBlocks : SeparateBlocks demo
demo-SeparateBlocks = record {
  below = λ fd. omega arith;
  apart = λ a b inside same. absurd (omega (arith, inside));
}

-- "BLOCK begin".
abbrev block_line : Bytes
block_line =
    line (b'B' ∷ b'L' ∷ b'O' ∷ b'C' ∷ b'K' ∷ []) ((b'b' ∷ b'e' ∷ b'g' ∷ b'i' ∷ b'n' ∷ []) ∷ [])

blocks-SeparateBlocks_example :
    SeparateBlocks (parse_block lower block_line 5 demo).1
    × SeparateBlocks (connection_new first_client second_client (pos 9) demo).1
blocks-SeparateBlocks_example =
    blocks-SeparateBlocks lower block_line 5 first_client second_client (pos 9) demo
      demo-SeparateBlocks

block_gets_number : ((parse_block lower block_line 5 demo).1.sockets 5).inside_block ≡ 8
unfolding parse_block get_param nth_word
block_gets_number = refl

-- A sign alone is taken for a number.
sign_is_number : isanum (b'+' ∷ []) ≡ true
unfolding isanum
sign_is_number = refl
