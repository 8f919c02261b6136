-- ===== src/Settings/Everyone.antt =====
-- SET ALL: the loop over the descriptors reaches each connected client.
use mathlib.Core.Path.{fun_ext}
use opentts.Prelude.{
  ℕ, zero, suc, ◌+◌, ◌≤◌, ◌<◌, ◌≡◌, ◌≢◌, refl, sym, ◌∙◌, ap, ◌⊎◌, inl, inr, Bool, true, false, not,
  ◌&&◌, ◌||◌, Option, none, some, ◌==◌, if◌then◌else◌, arith, Bool-cases,
}
use opentts.Prelude.Int.{pos}
use opentts.Types.{Bytes, Settings, Server}
use opentts.Clients.{get_client_uid_by_fd, each_client}
use opentts.Settings.{Parameter, set_uid, set_all}
use opentts.Settings.Assigned.{
  valid, map_settings, Changed, code_of, assigned, assigned-twice, set_uid-Changed,
}

-- Is `uid` the client of a descriptor?
abbrev sits : (ℕ → ℕ) → ℕ → ℕ → Bool
sits client_on uid fd = client_on fd == uid && not (uid == 0)

-- Is `uid` the client of one of the `n` descriptors from `i` on?
abbrev reaches : (ℕ → ℕ) → ℕ → ℕ → ℕ → Bool
reaches client_on uid zero i = false
reaches client_on uid (suc n) i = sits client_on uid i || reaches client_on uid n (i + 1)

abbrev pub client_on : Server → ℕ → ℕ
client_on s fd = get_client_uid_by_fd s (pos fd)

-- The lookup does not depend on the settings.
pub client_on-frame :
    (s : Server) (m : ℕ → Option Settings) (fd : ℕ)
    → client_on (record s { fd_settings = m }) fd ≡ client_on s fd
unfolding get_client_uid_by_fd
client_on-frame s m zero = refl
client_on-frame s m (suc fd) = refl

-- All clients that are connected have settings.
abbrev pub Registered : Server → Type 0
Registered s =
    (fd uid : ℕ) → client_on s fd ≡ suc uid → (c : Settings) × (s.fd_settings (suc uid) ≡ some c)

reaches-found :
    (look : ℕ → ℕ) (uid n i fd : ℕ)
    → i ≤ fd
    → fd < i + n
    → look fd ≡ suc uid
    → reaches look (suc uid) n i ≡ true
reaches-found look uid zero i fd low high e = absurd (omega (arith, low, high))
reaches-found look uid (suc n) i fd low high e = elim (Bool-cases (i == fd)) [
  | inl here ↦
      let i≡fd : i ≡ fd = ground arith in
      let found : sits look (suc uid) i ≡ true = rw i≡fd (ground (arith, e)) in rw found
  | inr there ↦
      let ih = reaches-found look uid n (i + 1) fd (ground arith) (omega (arith, high)) e in
      ground (arith, ih)
]

reaches-missed :
    (look : ℕ → ℕ) (uid n i : ℕ)
    → ((fd : ℕ) → i ≤ fd → fd < i + n → look fd ≢ suc uid)
    → reaches look (suc uid) n i ≡ false
reaches-missed look uid zero i h = refl
reaches-missed look uid (suc n) i h =
    let ih =
      reaches-missed look uid n (i + 1)
        (λ fd low high. h fd (omega (arith, low)) (omega (arith, high))) in
    let free : look i ≢ suc uid = h i (omega arith) (omega arith) in ground (arith, ih, free)

module _ (act : ℕ → Server → ℕ × Server) (f : Settings → Settings)
    (acts : (u : ℕ) (s : Server) → Changed u f s (act u s).1)
    (twice : (c : Settings) → f (f c) ≡ f c) where
  -- What the loop does to the settings of one client.
  record Reached (n i : ℕ) (s t : Server) : Type 0 where
    at :
        (j : ℕ)
        → t.fd_settings j ≡ (
            if reaches (client_on s) j n i
            then map_settings f (s.fd_settings j)
            else s.fd_settings j)
    rest : t ≡ record s { fd_settings = t.fd_settings }

  -- One round of the loop.
  abbrev round : ℕ → Server → Server
  round i s = (let uid = client_on s i in if uid == 0 then (0, s) else act uid s).1

  round-at :
      (i j : ℕ) (s : Server)
      → (round i s).fd_settings j
        ≡ (if sits (client_on s) j i then map_settings f (s.fd_settings j) else s.fd_settings j)
  round-at i j s = elim (Bool-cases (client_on s i == 0)) [
    | inl nobody ↦
        let free : sits (client_on s) j i ≡ false = ground arith in rw (free, nobody, round)
    | inr somebody ↦
        let same : sits (client_on s) j i ≡ (client_on s i == j) = ground arith in
        rw (same, somebody, round) ((acts (client_on s i) s).at j)
  ]

  round-rest : (i : ℕ) (s : Server) → round i s ≡ record s { fd_settings = (round i s).fd_settings }
  round-rest i s = elim (Bool-cases (client_on s i == 0)) [
    | inl nobody ↦ rw (nobody, round)
    | inr somebody ↦ rw (somebody, round) ((acts (client_on s i) s).rest)
  ]

  client_on-round : (i : ℕ) (s : Server) → client_on (round i s) ≡ client_on s
  client_on-round i s =
      ap client_on (round-rest i s) ∙ fun_ext (client_on-frame s ((round i s).fd_settings))

  once : (o : Option Settings) → map_settings f (map_settings f o) ≡ map_settings f o
  once none = refl
  once (some c) = ap some (twice c)

  either :
      (a b : Bool) (o : Option Settings)
      → (if b
          then map_settings f (if a then map_settings f o else o)
          else if a
          then map_settings f o
          else o)
        ≡ (if a || b then map_settings f o else o)
  either true true o = once o
  either true false o = refl
  either false true o = refl
  either false false o = refl

  each_client-Reached : (n i : ℕ) (s : Server) → Reached n i s (each_client act n i s).1
  unfolding each_client
  each_client-Reached zero i s = record { at = λ j. refl; rest = refl }
  each_client-Reached (suc n) i s =
      let s1 = round i s in
      let later = each_client-Reached n (i + 1) s1 in
      let t = (each_client act n (i + 1) s1).1 in
      record {
        at = λ j.
            later.at j
            ∙ rw (client_on-round i s, round-at i j s)
                (either (sits (client_on s) j i) (reaches (client_on s) j n (i + 1))
                  (s.fd_settings j));
        rest =
            later.rest
            ∙ ap (λ (x : Server). record x { fd_settings = t.fd_settings }) (round-rest i s);
      }

  module _ (codes : (u : ℕ) (s : Server) → (act u s).0 ≡ code_of (s.fd_settings u)) where
    Registered-round : (i : ℕ) (s : Server) → Registered s → Registered (round i s)
    Registered-round i s all fd uid e =
        let there : client_on s fd ≡ suc uid =
          ap (λ look. look fd) (sym (client_on-round i s)) ∙ e in
        let (c, known) = all fd uid there in
        elim (Bool-cases (sits (client_on s) (suc uid) i)) [
          | inl here ↦ (f c, round-at i (suc uid) s ∙ rw (here, known))
          | inr elsewhere ↦ (c, round-at i (suc uid) s ∙ rw (elsewhere, known))
        ]

    -- The code of one round.
    round-code :
        (i : ℕ) (s : Server)
        → Registered s
        → (let uid = client_on s i in if uid == 0 then (0, s) else act uid s).0 ≡ 0
    round-code i s all = elim (number-cases (client_on s i)) [
      | inl nobody ↦ rw nobody
      | inr (uid, somebody) ↦
          let (c, known) = all i uid somebody in
          let busy : (client_on s i == 0) ≡ false = ground (arith, somebody) in
          rw busy (codes (client_on s i) s ∙ rw (somebody, known))
    ]
      where
        number-cases : (n : ℕ) → (n ≡ 0) ⊎ ((m : ℕ) × (n ≡ suc m))
        number-cases zero = inl refl
        number-cases (suc m) = inr (m, refl)

    each_client-code : (n i : ℕ) (s : Server) → Registered s → (each_client act n i s).0 ≡ 0
    unfolding each_client
    each_client-code zero i s all = refl
    each_client-code (suc n) i s all =
        let first = round-code i s all in
        let rest = each_client-code n (i + 1) (round i s) (Registered-round i s all) in
        omega (arith, first, rest)

-- SET ALL with a value that is allowed: the new value is in the settings of each connected client,
-- and the other clients keep theirs; nothing but settings changes.
pub record Everyone (default_module : Bytes → Option Bytes) (p : Parameter) (s t : Server)
    : Type 0 where
  pub connected :
      (fd uid : ℕ)
      → 1 ≤ fd
      → fd ≤ s.max_fd
      → client_on s fd ≡ suc uid
      → t.fd_settings (suc uid) ≡ map_settings (assigned default_module p) (s.fd_settings (suc uid))
  pub gone :
      (uid : ℕ)
      → ((fd : ℕ) → 1 ≤ fd → fd ≤ s.max_fd → client_on s fd ≢ suc uid)
      → t.fd_settings (suc uid) ≡ s.fd_settings (suc uid)
  pub rest : t ≡ record s { fd_settings = t.fd_settings }

-- SET ALL with a value that is allowed, while all connected clients have settings: it succeeds, the
-- value is put into the settings of each client that is connected on a descriptor up to `max_fd`,
-- and no other client's settings and nothing else changes.
pub set_all-Everyone :
    (default_module : Bytes → Option Bytes) (p : Parameter) (s : Server)
    → valid p ≡ true
    → Registered s
    → ((set_all default_module p s).0 ≡ 0)
      × Everyone default_module p s (set_all default_module p s).1
unfolding set_all
set_all-Everyone default_module p s allowed all =
    let act : ℕ → Server → ℕ × Server = λ uid. set_uid default_module p (pos uid) in
    let f = assigned default_module p in
    let does = λ (u : ℕ) (x : Server). set_uid-Changed default_module p u x allowed in
    let reached =
      each_client-Reached act f (λ u x. (does u x).1) (assigned-twice default_module p) s.max_fd 1
        s in
    let code =
      each_client-code act f (λ u x. (does u x).1) (assigned-twice default_module p)
        (λ u x. (does u x).0) s.max_fd 1 s all in
    (
      rw code refl,
      record {
        connected = λ fd uid low high e.
            reached.at (suc uid)
            ∙ rw (reaches-found (client_on s) uid s.max_fd 1 fd low (omega (arith, high)) e);
        gone = λ uid none_there.
            reached.at (suc uid)
            ∙ rw (
                reaches-missed (client_on s) uid s.max_fd 1
                  λ fd low high. none_there fd low (omega (arith, high)));
        rest = reached.rest;
      },
    )
