-- ===== src/Tests/Connections.antt =====
-- Runs of connections.
use opentts.Prelude.{◌≡◌, refl, inl, inr, true, false, none, some, ◌==◌, arith, Bool-cases}
use opentts.Prelude.Int.{pos}
use opentts.Clients.{get_client_uid_by_fd}
use opentts.Connections.Invariant.{WellConnected, connections-WellConnected}
use opentts.Connections.{connection_new, connection_destroy}
use opentts.Tests.Samples.{demo, first_client, second_client}

demo-WellConnected : WellConnected demo
demo-WellConnected fd uid e = elim (Bool-cases (fd == 5)) [
  | inl five ↦
      let number : some 1 ≡ some uid = rw five at e in
      let one : 1 ≡ uid = cc in
      let is_one : (uid == 1) ≡ true = ground (arith, one) in
      record {
        settings = first_client;
        known = rw is_one refl;
        on = ground (arith, five);
        named = one;
        above = omega (arith, one);
        below = omega (arith, one);
        reached = ground (arith, five);
      }
  | inr not_five ↦ elim (Bool-cases (fd == 6)) [
    | inl six ↦
        let number : some 2 ≡ some uid = rw (not_five, six) at e in
        let two : 2 ≡ uid = cc in
        let not_one : (uid == 1) ≡ false = ground (arith, two) in
        let is_two : (uid == 2) ≡ true = ground (arith, two) in
        record {
          settings = second_client;
          known = rw (not_one, is_two) refl;
          on = ground (arith, six);
          named = two;
          above = omega (arith, two);
          below = omega (arith, two);
          reached = ground (arith, six);
        }
    | inr nobody ↦ let h : none ≡ some uid = rw (not_five, nobody) at e in absurd (cc)
  ]
]

-- A third client comes on descriptor 9; the first goes.
connections-WellConnected_example :
    WellConnected (connection_new first_client second_client (pos 9) demo).1
    × WellConnected (connection_destroy 5 demo).1
connections-WellConnected_example =
    connections-WellConnected demo demo-WellConnected first_client second_client (pos 9) 5

new_client_found :
    get_client_uid_by_fd (connection_new first_client second_client (pos 9) demo).1 (pos 9) ≡ 3
unfolding get_client_uid_by_fd connection_new
new_client_found = refl
