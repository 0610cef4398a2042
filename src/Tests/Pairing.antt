-- ===== src/Tests/Pairing.antt =====
-- The pairing at concrete states and calls.
use openwrt_wattline.Common.{
  ℕ, ◌+◌, ◌*◌, ◌≤◌, true, false, not, String, some, [], ◌∷◌, ◌≡◌, ◌≢◌, ◌↔◌, refl, arith, ◌==◌,
  string_eq,
}
use openwrt_wattline.Common.Bytes.{Bytes}
use openwrt_wattline.Common.Clock.{zero_time, second, minute}
use openwrt_wattline.Common.Int.{pos}
use openwrt_wattline.Common.Result.{ok}
use openwrt_wattline.Auth.Pin.{Sample, six_digits, generate_pin, sample_value}
use openwrt_wattline.Auth.Pin.Sampling.{pin_number, pin_number-six_digits, generate_pin-uniform}
use openwrt_wattline.Auth.Windows.{no_failures, expired, window_of}
use openwrt_wattline.Auth.Pairing.{
  Issuer, Pairing, PolicyState, observe_now, refresh, policy_of, exchange, reconfigure, rollback,
  new_pairing, open_now, rate_limited, expire_windows,
}
use openwrt_wattline.Auth.Pairing.Calls.{
  Reachable, created, called, opening, exchanging, WorldValid, Reachable-WorldValid,
}
use openwrt_wattline.Auth.Pairing.Exchange.{
  Enrolls, exchange-Enrolls, exchange-rate_limited, exchange_expired,
}
use openwrt_wattline.Auth.Pairing.Guessing.{
  Attempt, Ordered, wrong_guesses, wrong_guesses-global_limit,
}
use openwrt_wattline.Auth.Pairing.Policy.{rollback-reconfigure}

-- A store that counts what it issued, and gives out the label.
abbrev counting : Issuer ℕ String
counting = record { valid_label = λ l. not (l == ""); issue = λ n l. (n + 1, some l) }

abbrev three : Sample
three = (0, 0, 3)

abbrev pin_of_three : Bytes
pin_of_three = b'0' ∷ b'0' ∷ b'0' ∷ b'0' ∷ b'0' ∷ b'3' ∷ []

abbrev wrong_pin : Bytes
wrong_pin = b'1' ∷ []

abbrev closed : Pairing ℕ
closed = record {
  tokens = some 0;
  ttl = pos (5 * minute);
  always_on = false;
  random = some three ∷ [];
  is_open = false;
  pin = [];
  expires_at = zero_time;
  last_now = minute;
  source_limit = 5;
  global_limit = 20;
  rate_window = pos minute;
  sources = [];
  global = no_failures;
}

abbrev opened_up : Pairing ℕ
opened_up = record closed { is_open = true; pin = pin_of_three; expires_at = 6 * minute }

-- twenty failures in the window
abbrev exhausted : Pairing ℕ
exhausted = record opened_up { global = record { started = minute; count = 20 } }

exchange-Enrolls_example :
    ((exchange counting "10.0.0.2" pin_of_three "phone" (2 * minute) opened_up).1 ≡ ok "phone")
    ↔ Enrolls counting "10.0.0.2" pin_of_three "phone"
        (2 * minute)
        opened_up
        (refresh (2 * minute) (observe_now (2 * minute) opened_up))
        "phone"
exchange-Enrolls_example =
    exchange-Enrolls counting "10.0.0.2" pin_of_three "phone" (2 * minute) opened_up "phone"

exhausted_limited :
    (rate_limited "10.0.0.2"
      (minute + second)
      (refresh (minute + second) (observe_now (minute + second) exhausted))).1
    ≡ true
unfolding rate_limited refresh observe_now expire_windows expired window_of
exhausted_limited = ground arith

exchange-rate_limited_example :
    exchange counting "10.0.0.2" pin_of_three "phone" (minute + second) exhausted
    ≡ exchange counting "10.0.0.2" wrong_pin "phone" (minute + second) exhausted
exchange-rate_limited_example =
    exchange-rate_limited counting "10.0.0.2" pin_of_three wrong_pin "phone" (minute + second)
      exhausted exhausted_limited

exchange_expired_example :
    (exchange counting "10.0.0.2" pin_of_three "phone" (6 * minute) opened_up).1 ≢ ok "phone"
exchange_expired_example =
    exchange_expired counting "10.0.0.2" pin_of_three "phone" (6 * minute) opened_up "phone" refl
      (omega arith)

abbrev first_try : Attempt
first_try = record { source = "10.0.0.2"; pin = wrong_pin; label = "phone"; now = minute + second }

abbrev second_try : Attempt
second_try = record {
  source = "10.0.0.3";
  pin = wrong_pin;
  label = "phone";
  now = minute + 2 * second;
}

tries_Ordered : Ordered minute (minute + minute) (first_try ∷ second_try ∷ [])
tries_Ordered = (omega arith, omega arith, (omega arith, omega arith, tt))

wrong_guesses-global_limit_example :
    wrong_guesses counting (first_try ∷ second_try ∷ []) opened_up ≤ 20
wrong_guesses-global_limit_example =
    wrong_guesses-global_limit counting minute minute (first_try ∷ second_try ∷ []) opened_up
      (omega arith) refl refl tries_Ordered

abbrev newly : Pairing ℕ
newly = new_pairing (some 0) (pos minute) false (some three ∷ []) 5 20 (pos minute) second

abbrev after_opening : Pairing ℕ
after_opening = (open_now minute newly).0

abbrev after_a_try : Pairing ℕ
after_a_try = (exchange counting "10.0.0.2" wrong_pin "phone" (minute + second) after_opening).0

abbrev after_two_calls : Reachable counting (after_a_try, [])
after_two_calls =
    called (after_opening, []) (after_a_try, [])
      (called (newly, []) (after_opening, [])
        (created (some 0) (pos minute) false (some three ∷ []) 5 20 (pos minute) second)
        (opening minute newly []))
      (exchanging "10.0.0.2" wrong_pin "phone" (minute + second) after_opening [])

Reachable-WorldValid_example : WorldValid counting (after_a_try, [])
Reachable-WorldValid_example = Reachable-WorldValid counting after_two_calls

abbrev was_open : PolicyState
was_open = record {
  ttl = pos (5 * minute);
  always_on = false;
  is_open = true;
  pin = pin_of_three;
  expires_at = 6 * minute;
}

reconfigured : (reconfigure (pos minute) true (2 * minute) opened_up).1 ≡ ok was_open
unfolding reconfigure refresh observe_now policy_of
reconfigured = ground arith

rollback-reconfigure_example :
    policy_of (rollback was_open (reconfigure (pos minute) true (2 * minute) opened_up).0)
    ≡ policy_of (refresh (2 * minute) (observe_now (2 * minute) opened_up))
rollback-reconfigure_example =
    rollback-reconfigure (pos minute) true (2 * minute) opened_up was_open reconfigured

still_open : (refresh (2 * minute) (observe_now (2 * minute) opened_up)).is_open ≡ true
unfolding refresh observe_now
still_open = ground arith

three_drawn : (generate_pin (some three ∷ [])).0 ≡ some pin_of_three
unfolding generate_pin sample_value six_digits
three_drawn = ground arith

generate_pin-uniform_example : generate_pin (some (15, 66, 67) ∷ []) ≡ (some (six_digits 3), [])
generate_pin-uniform_example =
    generate_pin-uniform 3 1 (15, 66, 67) [] (omega arith) (omega arith) (omega arith)

pin_number-six_digits_example : pin_number 0 (six_digits 123) ≡ 123
pin_number-six_digits_example = pin_number-six_digits 123 (omega arith)
