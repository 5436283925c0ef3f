-- ===== src/Tests/Lights.antt =====
-- Runs of the sunset override and of the Christmas chase.
use phone_app.Lights.{end_show, stop_show, start_show, no_shows, ShowStep, show_run}
use phone_app.Base.{
  arith, if◌then◌else◌, true, false, some, ◌-◌, Bool, refl, [], ◌∷◌, ◌==◌, ◌≤◌, ◌≡◌, ◌*◌, List, ℕ,
}
use phone_app.Lights.Override.{
  apply_overrides, Apartment, apply_overrides_lem, wanted, Outputs, Accepting,
}
use phone_app.Lights.Chase.{one_show, count_running}

abbrev hour : ℕ
hour = 3_600_000_000

abbrev show_steps : List ShowStep
show_steps = start_show 3 ∷ stop_show 3 ∷ start_show 3 ∷ end_show 3 0 ∷ start_show 3 ∷ []

one_show_example : count_running 3 (show_run show_steps no_shows).threads ≤ 1
one_show_example = one_show show_steps 3

-- Two outputs, 1 in apartment 3 and 2 in apartment 4, as functions of their numbers.
abbrev outputs : Outputs (ℕ → Bool)
outputs = record {
  all_templated = λ pk s. (some ((pk - 2) ∷ []), s);
  write = λ o on s. (some tt, λ u. if o == u then on else s u);
}

abbrev accepting : Accepting outputs
accepting = record {
  devices = λ pk. (pk - 2) ∷ [];
  is_lit = λ s u. s u;
  all_templated_law = λ pk s. refl;
  write_law = λ o u on s. (refl, refl);
}

abbrev manual_apartment : Apartment
manual_apartment = record {
  pk = 3;
  auto_sunset_sunrise = false;
  sunset_override_time = some (18 * hour);
  sunrise_override_time = some (7 * hour);
  christmas_mode_active = false;
}

abbrev apartments : List Apartment
apartments = manual_apartment ∷ record manual_apartment { pk = 4; auto_sunset_sunrise = true } ∷ []

apply_overrides_lem_example :
    apply_overrides outputs (2 * hour) apartments (λ u. false) 1
    ≡ wanted (λ pk. (pk - 2) ∷ []) (24 * hour) (2 * hour) 1 apartments false
apply_overrides_lem_example =
    apply_overrides_lem outputs accepting (24 * hour) (2 * hour) apartments 1 (λ u. false)
      (ground arith) ((ground arith, ground arith), ((ground arith, ground arith), tt))
