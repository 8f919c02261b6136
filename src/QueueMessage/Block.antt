-- ===== src/QueueMessage/Block.antt =====
-- `last_p5_block`: the copies of the last block of progress messages.
use opentts.Prelude.{
  ℕ, suc, ◌≡◌, refl, ap, inl, inr, List, [], ◌∷◌, ◌++◌, none, some, ◌==◌, arith, Bool-cases, ◌<◌,
}
use opentts.Prelude.Int.{pos}
use opentts.Types.{Message, Server}
use opentts.Clients.{update}
use opentts.Speaking.Queues.{mem_free_message}
use opentts.Speaking.Queues.Ends.{split_last-Unlinked}
use opentts.Speaking.Queues.Loops.{push_all}
use opentts.QueueMessage.{
  store_message, copied, copy_sized, copy_message, clear_other_block, keep_copy, free_block,
  starts_block, remember_progress,
}
use opentts.QueueMessage.Placed.{update_self}

-- All messages of the list carry one block number.
abbrev pub InBlock : (ℕ → Message) → ℕ → List ℕ → Type 0
InBlock h gid [] = Unit {0}
InBlock h gid (p ∷ q) = ((h p).settings.reparted ≡ gid) × InBlock h gid q

free_block_lem :
    (q : List ℕ) (s : Server)
    → free_block q s ≡ record s { last_p5_block = []; freed = push_all q s.freed }
unfolding free_block mem_free_message
free_block_lem [] s = refl
free_block_lem (p ∷ q) s = free_block_lem q (mem_free_message p s)

abbrev pub Below : ℕ → List ℕ → Type 0
Below n [] = Unit {0}
Below n (p ∷ q) = (p < n) × Below n q

InBlock-update :
    (h : ℕ → Message) (gid n : ℕ) (m : Message) (q : List ℕ)
    → Below n q
    → InBlock h gid q
    → InBlock (update h n m) gid q
InBlock-update h gid n m [] b i = tt
InBlock-update h gid n m (p ∷ q) b i = (ground arith, InBlock-update h gid n m q b.1 i.1)

InBlock-concat :
    (h : ℕ → Message) (gid : ℕ) (q : List ℕ) (p : ℕ)
    → InBlock h gid q
    → (h p).settings.reparted ≡ gid
    → InBlock h gid (q ++ p ∷ [])
InBlock-concat h gid [] p i e = (e, tt)
InBlock-concat h gid (x ∷ q) p i e = (i.0, InBlock-concat h gid q p i.1 e)

InBlock-last :
    (h : ℕ → Message) (gid : ℕ) (front : List ℕ) (last : ℕ)
    → InBlock h gid (front ++ last ∷ [])
    → (h last).settings.reparted ≡ gid
InBlock-last h gid [] last i = i.0
InBlock-last h gid (x ∷ front) last i = InBlock-last h gid front last i.1

abbrev pub block_number : ℕ → Server → ℕ
block_number p s = (s.messages p).settings.reparted

-- The block with a copy behind it: the copy has the number of the message, so if all in front have
-- that number too, all have.
copy-InBlock :
    (p n : ℕ) (s : Server)
    → InBlock s.messages (block_number p s) s.last_p5_block
    → Below s.allocated s.last_p5_block
    → let h = update s.messages s.allocated (copied n (s.messages p)) in
      InBlock h (block_number p s) (s.last_p5_block ++ s.allocated ∷ [])
copy-InBlock p n s block below =
    let copy = copied n (s.messages p) in
    let gid = block_number p s in
    InBlock-concat (update s.messages s.allocated copy) gid s.last_p5_block s.allocated
      (InBlock-update s.messages gid s.allocated copy s.last_p5_block below block)
      (ap (λ m. m.settings.reparted) (update_self s.messages s.allocated copy))

Below-concat : (n : ℕ) (q : List ℕ) → Below n q → Below (suc n) (q ++ n ∷ [])
Below-concat n [] b = (omega arith, tt)
Below-concat n (p ∷ q) b = (omega arith, Below-concat n q b.1)

abbrev with_copy : ℕ → ℕ → Server → Server
with_copy p n s = record s {
  messages = update s.messages s.allocated (copied n (s.messages p));
  allocated = suc s.allocated;
  last_p5_block = s.last_p5_block ++ s.allocated ∷ [];
}

keep_copy_lem :
    (p n : ℕ) (s : Server) → (s.messages p).bytes ≡ pos n → keep_copy p s ≡ some (with_copy p n s)
unfolding keep_copy copy_message store_message
keep_copy_lem p n s size =
    ap
      (λ r. elim r [
        | none ↦ none
        | some (c, t) ↦ some (record t { last_p5_block = t.last_p5_block ++ c ∷ [] })
      ])
      (ap (λ b. copy_sized b p s) size)

-- What is left of the old block has the number of the message that comes in.
record Cleared (p : ℕ) (s t : Server) : Type 0 where
  messages : t.messages ≡ s.messages
  block : InBlock t.messages (block_number p s) t.last_p5_block
  below : Below t.allocated t.last_p5_block

clear_other_block-Cleared :
    (p gid : ℕ) (s : Server)
    → InBlock s.messages gid s.last_p5_block
    → Below s.allocated s.last_p5_block
    → Cleared p s (clear_other_block p s)
unfolding clear_other_block starts_block
clear_other_block-Cleared p gid s block below = elim (split_last-Unlinked s.last_p5_block) [
  | inl (e, empty) ↦ rw (e, clear_other_block, starts_block) cleared
  | inr (front, last, e, parts) ↦
      let number : (s.messages last).settings.reparted ≡ gid =
        InBlock-last s.messages gid front last (rw parts at block) in
      elim (Bool-cases ((s.messages last).settings.reparted == block_number p s)) [
        | inl same ↦
            rw (e, same, clear_other_block, starts_block)
              (record {
                messages = refl;
                block = let e' : block_number p s ≡ gid = ground arith in rw e' block;
                below = below;
              })
        | inr other ↦ rw (e, other, clear_other_block, starts_block) cleared
      ]
]
  where
    cleared : Cleared p s (free_block s.last_p5_block s)
    cleared = rw free_block_lem (record { messages = refl; block = tt; below = tt })

-- `last_p5_block` holds messages of one block only: if it did before, then after a progress message
-- has come in, all of it has that message's block number. All of it is allocated.
pub remember_progress-InBlock :
    (p n gid : ℕ) (s : Server)
    → (s.messages p).bytes ≡ pos n
    → InBlock s.messages gid s.last_p5_block
    → Below s.allocated s.last_p5_block
    → (t : Server) × (remember_progress p s ≡ some t)
      × InBlock t.messages (block_number p s) t.last_p5_block
      × Below t.allocated t.last_p5_block
unfolding remember_progress
remember_progress-InBlock p n gid s size block below =
    let s1 = clear_other_block p s in
    let c = clear_other_block-Cleared p gid s block below in
    let number : block_number p s1 ≡ block_number p s =
      ap (λ h. (h p).settings.reparted) c.messages in
    (
      with_copy p n s1,
      keep_copy_lem p n s1 (rw c.messages size),
      rw number at (copy-InBlock p n s1 (rw number c.block) c.below),
      Below-concat s1.allocated s1.last_p5_block c.below,
    )
