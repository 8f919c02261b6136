-- ===== src/Connections/Invariant.antt =====
-- What holds of the tables of clients while clients come and go.
use opentts.Prelude.{
  ℕ, zero, suc, ◌-◌, ◌≤◌, ◌≡◌, ◌≢◌, refl, sym, ◌∙◌, ap, inl, inr, true, false, none, some, ◌==◌,
  if◌then◌else◌, arith, Bool-cases, Option-cases,
}
use opentts.Prelude.Int.{ℤ, pos, negsuc}
use opentts.Types.{Settings, Server}
use opentts.Clients.{get_client_uid_by_fd, get_client_settings_by_fd, put_settings}
use opentts.Connections.{default_fd_set, connection_new, tag_inactive, connection_destroy}

-- The client that is connected on `fd` has the number `uid`: the number was given out, the loops over
-- descriptors reach `fd`, and the client's settings name both.
pub record Attached (fd uid : ℕ) (s : Server) : Type 0 where
  pub settings : Settings
  pub known : s.fd_settings uid ≡ some settings
  pub on : settings.fd ≡ pos fd
  pub named : settings.uid ≡ uid
  pub above : 1 ≤ uid
  pub below : uid ≤ s.max_uid
  pub reached : fd ≤ s.max_fd

-- This holds of all descriptors with a client.
abbrev pub WellConnected : Server → Type 0
WellConnected s = (fd uid : ℕ) → s.fd_uid fd ≡ some uid → Attached fd uid s

-- What tagging a client leaves alone.
record Tagged (gone : ℕ) (s t : Server) : Type 0 where
  fd_uid : t.fd_uid ≡ s.fd_uid
  max_uid : t.max_uid ≡ s.max_uid
  max_fd : t.max_fd ≡ s.max_fd
  others :
      (uid : ℕ) → get_client_uid_by_fd s (pos gone) ≢ uid → t.fd_settings uid ≡ s.fd_settings uid

tag_inactive-Tagged : (gone : ℕ) (s : Server) → Tagged gone s (tag_inactive gone s)
unfolding tag_inactive put_settings
tag_inactive-Tagged gone s = elim (Option-cases (get_client_settings_by_fd s (pos gone))) [
  | inl nobody ↦
      rw (nobody, tag_inactive)
        (record { fd_uid = refl; max_uid = refl; max_fd = refl; others = λ uid other. refl })
  | inr (client, e) ↦
      rw (e, tag_inactive)
        (record {
          fd_uid = refl;
          max_uid = refl;
          max_fd = refl;
          others = λ uid other.
              let differs : (get_client_uid_by_fd s (pos gone) == uid) ≡ false =
                ground (arith, other) in
              rw differs;
        })
]

-- The client on a descriptor.
get_client_uid_by_fd_lem :
    (fd uid : ℕ) (s : Server)
    → get_client_uid_by_fd s (pos fd) ≡ uid
    → 1 ≤ uid
    → s.fd_uid fd ≡ some uid
unfolding get_client_uid_by_fd
get_client_uid_by_fd_lem zero uid s e above = absurd (omega (arith, e, above))
get_client_uid_by_fd_lem (suc fd) uid s e above = elim (Option-cases (s.fd_uid (suc fd))) [
  | inl nobody ↦
      absurd (let h : 0 ≡ uid = rw (nobody, get_client_uid_by_fd) at e in omega (arith, h, above))
  | inr (v, there) ↦ let h : v ≡ uid = rw (there, get_client_uid_by_fd) at e in there ∙ ap some h
]

lowered :
    (gone fd m top : ℕ)
    → (gone == fd) ≡ false
    → m ≡ top
    → fd ≤ top
    → fd ≤ (if gone == m then m - 1 else m)
lowered gone fd m top differ e below = elim (Bool-cases (gone == m)) [
  | inl last ↦
      let gone≡m : gone ≡ m = ground arith in rw last (ground (arith, gone≡m, e, below, differ))
  | inr inner ↦ rw inner (omega (arith, e, below))
]

module _ (s : Server) (well : WellConnected s) where
  connection_new-WellConnected :
      (global memory : Settings) (socket : ℤ)
      → WellConnected (connection_new global memory socket s).1
  unfolding connection_new put_settings
  connection_new-WellConnected global memory (negsuc n) = well
  connection_new-WellConnected global memory (pos socket) = λ fd uid e.
      elim (Bool-cases (socket == fd)) [
        | inl here ↦
            let number : some (suc s.max_uid) ≡ some uid = rw here at e in
            let given : suc s.max_uid ≡ uid = cc in
            let same : (suc s.max_uid == uid) ≡ true = ground (arith, given) in
            record {
              settings = record (default_fd_set global memory) {
                fd = pos socket;
                uid = suc s.max_uid;
              };
              known = rw same refl;
              on = ground arith;
              named = given;
              above = omega (arith, given);
              below = omega (arith, given);
              reached = ground arith;
            }
        | inr there ↦
            let old = well fd uid (rw there at e) in
            let new_number : (suc s.max_uid == uid) ≡ false = ground (arith, old.below) in
            record {
              settings = old.settings;
              known = rw new_number old.known;
              on = old.on;
              named = old.named;
              above = old.above;
              below = omega (arith, old.below);
              reached = ground (arith, old.reached);
            }
      ]

  connection_destroy-WellConnected : (gone : ℕ) → WellConnected (connection_destroy gone s).1
  unfolding connection_destroy
  connection_destroy-WellConnected gone = λ fd uid e. elim (Bool-cases (gone == fd)) [
    | inl here ↦ let h : none ≡ some uid = rw here at e in absurd (cc)
    | inr there ↦
        let tagged = tag_inactive-Tagged gone s in
        let still : s.fd_uid fd ≡ some uid = sym (ap (λ m. m fd) tagged.fd_uid) ∙ (rw there at e) in
        let old = well fd uid still in
        let other : get_client_uid_by_fd s (pos gone) ≢ uid = λ same.
          let clash = well gone uid (get_client_uid_by_fd_lem gone uid s same old.above) in
          let shared : some old.settings ≡ some clash.settings = sym old.known ∙ clash.known in
          let one : old.settings ≡ clash.settings = cc in
          let at : pos fd ≡ pos gone = sym old.on ∙ ap (λ (x : Settings). x.fd) one ∙ clash.on in
          let fd≡gone : fd ≡ gone = ground arith in ground (arith, fd≡gone, there) in
        let s1 = tag_inactive gone s in
        record {
          settings = old.settings;
          known = tagged.others uid other ∙ old.known;
          on = old.on;
          named = old.named;
          above = old.above;
          below = rw tagged.max_uid old.below;
          reached = lowered gone fd s1.max_fd s.max_fd there tagged.max_fd old.reached;
        }
  ]

  -- Every descriptor with a client has a number that was given out, is reached by the loops over
  -- descriptors, and has settings that name the descriptor and the number. If this holds, it holds
  -- after a connection, whatever `accept` returned, and after a disconnection.
  pub connections-WellConnected :
      (global memory : Settings) (socket : ℤ) (gone : ℕ)
      → WellConnected (connection_new global memory socket s).1
        × WellConnected (connection_destroy gone s).1
  connections-WellConnected global memory socket gone =
      (connection_new-WellConnected global memory socket, connection_destroy-WellConnected gone)
