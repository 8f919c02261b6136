-- ===== src/Protocol/Groups.antt =====
-- The numbers of blocks: no two connections are inside blocks of the same number.
use opentts.Prelude.{
  ℕ, suc, ◌≤◌, ◌≡◌, refl, sym, ◌∙◌, ◌⊎◌, inl, inr, true, false, ltb, ◌==◌, arith, Bool-cases,
  Option-cases,
}
use opentts.Prelude.Int.{ℤ, pos, negsuc}
use opentts.Types.{Bytes, Sock, Settings, Server}
use opentts.Clients.{update, put_settings}
use opentts.Settings.{same_text}
use opentts.Connections.{connection_new}
use opentts.Protocol.{begin_name, end_name, get_param, parse_block}

-- The block that the connection on a descriptor is inside of, 0 for none.
abbrev pub block_of : (ℕ → Sock) → ℕ → ℕ
block_of sockets fd = (sockets fd).inside_block

-- The numbers of blocks were given out, and no two connections have the same one.
pub record Separate (top : ℕ) (sockets : ℕ → Sock) : Type 0 where
  pub below : (fd : ℕ) → block_of sockets fd ≤ top
  pub apart : (a b : ℕ) → 1 ≤ block_of sockets a → block_of sockets a ≡ block_of sockets b → a ≡ b

-- One connection leaves its block, or gets a number that is new.
block_of-update :
    (sockets : ℕ → Sock) (fd j : ℕ) (new : Sock)
    → ((fd ≡ j) × (block_of (update sockets fd new) j ≡ new.inside_block))
      ⊎ ((block_of (update sockets fd new) j ≡ block_of sockets j) × ((fd == j) ≡ false))
block_of-update sockets fd j new = elim (Bool-cases (fd == j)) [
  | inl here ↦ inl (ground arith, rw (here, block_of) refl)
  | inr there ↦ inr (rw (there, block_of) refl, there)
]

leave-Separate :
    (top fd : ℕ) (sockets : ℕ → Sock) (new : Sock)
    → new.inside_block ≡ 0
    → Separate top sockets
    → Separate top (update sockets fd new)
leave-Separate top fd sockets new free sep = record {
  below = λ j. elim (block_of-update sockets fd j new) [
    | inl (here, e) ↦ omega (arith, e, free)
    | inr (e, there) ↦ omega (arith, e, sep.below j)
  ];
  apart = λ a b inside same. elim (block_of-update sockets fd a new) [
    | inl (here, e) ↦ absurd (omega (arith, e, free, inside))
    | inr (e, there) ↦ elim (block_of-update sockets fd b new) [
      | inl (here_b, e_b) ↦ absurd (omega (arith, e_b, free, inside, same))
      | inr (e_b, there_b) ↦ sep.apart a b (omega (arith, e, inside)) (sym e ∙ same ∙ e_b)
    ]
  ];
}

enter-Separate :
    (top fd : ℕ) (sockets : ℕ → Sock) (new : Sock)
    → new.inside_block ≡ suc top
    → Separate top sockets
    → Separate (suc top) (update sockets fd new)
enter-Separate top fd sockets new fresh sep = record {
  below = λ j. elim (block_of-update sockets fd j new) [
    | inl (here, e) ↦ omega (arith, e, fresh)
    | inr (e, there) ↦ omega (arith, e, sep.below j)
  ];
  apart = λ a b inside same. elim (block_of-update sockets fd a new) [
    | inl (here, e) ↦ elim (block_of-update sockets fd b new) [
      | inl (here_b, e_b) ↦ sym here ∙ here_b
      | inr (e_b, there_b) ↦ absurd (omega (arith, e, fresh, e_b, same, sep.below b))
    ]
    | inr (e, there) ↦ elim (block_of-update sockets fd b new) [
      | inl (here_b, e_b) ↦ absurd (omega (arith, e_b, fresh, e, same, sep.below a))
      | inr (e_b, there_b) ↦ sep.apart a b (omega (arith, e, inside)) (sym e ∙ same ∙ e_b)
    ]
  ];
}

abbrev pub SeparateBlocks : Server → Type 0
SeparateBlocks s = Separate s.max_gid s.sockets

parse_block-SeparateBlocks :
    (strdown : Bytes → Bytes) (buf : Bytes) (fd : ℕ) (s : Server)
    → SeparateBlocks s
    → SeparateBlocks (parse_block strdown buf fd s).1
unfolding parse_block
parse_block-SeparateBlocks strdown buf fd s sep =
    elim (Option-cases (get_param strdown buf 1 true)) [
      | inl missing ↦ rw (missing, parse_block) sep
      | inr (cmd, e) ↦ elim (Bool-cases (same_text cmd begin_name)) [
        | inl begins ↦ elim (Bool-cases ((s.sockets fd).inside_block == 0)) [
          | inl outside ↦
              rw (e, begins, outside, parse_block)
                (enter-Separate s.max_gid fd s.sockets
                  (record (s.sockets fd) { inside_block = suc s.max_gid }) refl sep)
          | inr inside ↦ rw (e, begins, inside, parse_block) sep
        ]
        | inr other ↦ elim (Bool-cases (same_text cmd end_name)) [
          | inl ends ↦ elim (Bool-cases (ltb 0 (s.sockets fd).inside_block)) [
            | inl inside ↦
                rw (e, other, ends, inside, parse_block)
                  (leave-Separate s.max_gid fd s.sockets
                    (record (s.sockets fd) { inside_block = 0 }) refl sep)
            | inr outside ↦ rw (e, other, ends, outside, parse_block) sep
          ]
          | inr neither ↦ rw (e, other, neither, parse_block) sep
        ]
      ]
    ]

connection_new-SeparateBlocks :
    (global memory : Settings) (socket : ℤ) (s : Server)
    → SeparateBlocks s
    → SeparateBlocks (connection_new global memory socket s).1
unfolding connection_new put_settings
connection_new-SeparateBlocks global memory (negsuc n) s sep = sep
connection_new-SeparateBlocks global memory (pos socket) s sep =
    leave-Separate s.max_gid socket s.sockets _ refl sep

-- No two connections are inside blocks of the same number, and the numbers were given out: if this
-- holds, it holds after any BLOCK command on any connection, and after a new connection.
pub blocks-SeparateBlocks :
    (strdown : Bytes → Bytes) (buf : Bytes) (fd : ℕ) (global memory : Settings) (socket : ℤ)
    (s : Server)
    → SeparateBlocks s
    → SeparateBlocks (parse_block strdown buf fd s).1
      × SeparateBlocks (connection_new global memory socket s).1
blocks-SeparateBlocks strdown buf fd global memory socket s sep = (
  parse_block-SeparateBlocks strdown buf fd s sep,
  connection_new-SeparateBlocks global memory socket s sep,
)
