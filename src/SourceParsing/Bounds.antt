-- ===== src/SourceParsing/Bounds.antt =====
-- core/command/source_request.cpp: the ranges that an accepted request keeps to.
use cns_server.Base.{
  ℕ, ◌≤◌, ◌≡◌, String, List, [], ◌∷◌, Option, none, some, map, ok, arith, Option-cases, inl, inr,
}
use cns_server.Command.{ConfigParameters, ControlParameters}
use cns_server.SourceParsing.{
  JsonLibrary, number_in_range, read_unsigned_in_range, check_parameters, parse_parameters,
}
use cns_server.SourceParsing.Parse.{parse_pwm}

abbrev pub IsWithin : ℕ → ℕ → Option ℕ → Type 0
IsWithin minimum maximum none = Unit
IsWithin minimum maximum (some n) = (minimum ≤ n) × (n ≤ maximum)

abbrev pub IsOrdered : Option ℕ → Option ℕ → Type 0
IsOrdered (some initial) (some maximum) = initial ≤ maximum
IsOrdered _ _ = Unit

-- What the end of the parser lets through.
record IsChecked (a b c d : Option (Option ℕ)) (p : ConfigParameters) : Type 0 where
  publish : a ≡ some p.telemetry_publish_interval_ms
  heartbeat : b ≡ some p.heartbeat_interval_ms
  delay : c ≡ some p.mqtt_reconnect_delay_s
  delay_max : d ≡ some p.mqtt_reconnect_delay_max_s
  ordered : IsOrdered p.mqtt_reconnect_delay_s p.mqtt_reconnect_delay_max_s

check_parameters-IsChecked :
    (a b c d : Option (Option ℕ)) (p : ConfigParameters)
    → check_parameters a b c d ≡ ok p
    → IsChecked a b c d p
unfolding check_parameters
check_parameters-IsChecked (some a) (some b) (some c) (some d) p e = record {
  publish = ground (arith, e);
  heartbeat = ground (arith, e);
  delay = ground (arith, e);
  delay_max = ground (arith, e);
  ordered = ground (arith, e);
}
check_parameters-IsChecked none b c d p e = absurd (ground (arith, e))
check_parameters-IsChecked (some a) none c d p e = absurd (ground (arith, e))
check_parameters-IsChecked (some a) (some b) none d p e = absurd (ground (arith, e))
check_parameters-IsChecked (some a) (some b) (some c) none p e = absurd (ground (arith, e))

module _ {J : Type 0} (json : JsonLibrary J) where
  -- A member as the parser must read it: absent, or the library's number without a loss.
  abbrev pub IsRead : String → J → Option ℕ → Type 0
  IsRead key value none = json.member key value ≡ none
  IsRead key value (some n) = (v : J) × (json.member key value ≡ some v) × (json.number v ≡ n)

  read_unsigned_in_range-IsRead :
      (key : String) (minimum maximum : ℕ) (value : J) (o : Option ℕ)
      → maximum ≤ 60000
      → read_unsigned_in_range json key minimum maximum value ≡ some o
      → IsRead key value o × IsWithin minimum maximum o
  unfolding read_unsigned_in_range number_in_range
  read_unsigned_in_range-IsRead key minimum maximum value none le e =
      elim (Option-cases (json.member key value)) [
        | inl a ↦ (a, tt)
        | inr (v, a) ↦ absurd (ground (arith, a, e))
      ]
  read_unsigned_in_range-IsRead key minimum maximum value (some n) le e =
      elim (Option-cases (json.member key value)) [
        | inl a ↦ absurd (ground (arith, a, e))
        | inr (v, a) ↦ ((v, a, ground (arith, a, e, le)), ground (arith, a, e, le))
      ]

  checked_parameters :
      (value : J) (p : ConfigParameters)
      → parse_parameters json value ≡ ok p
      → check_parameters
          (read_unsigned_in_range json "telemetry_publish_interval_ms" 100 60000 value)
          (read_unsigned_in_range json "heartbeat_interval_ms" 100 60000 value)
          (read_unsigned_in_range json "mqtt_reconnect_delay_s" 1 3600 value)
          (read_unsigned_in_range json "mqtt_reconnect_delay_max_s" 1 3600 value)
        ≡ ok p
  unfolding parse_parameters
  checked_parameters value p e = ground (arith, e)

  -- Parameters that the parser accepts: each one that is present is the number that the library
  -- reads from the member of its name, between 100 and 60000 for the two intervals and between 1
  -- and 3600 for the two delays, one that is absent has no member, and the first delay is not
  -- above the largest one.
  pub parse_parameters_bounds :
      (value : J) (p : ConfigParameters)
      → parse_parameters json value ≡ ok p
      → (IsRead "telemetry_publish_interval_ms" value p.telemetry_publish_interval_ms
          × IsWithin 100 60000 p.telemetry_publish_interval_ms)
        × (IsRead "heartbeat_interval_ms" value p.heartbeat_interval_ms
            × IsWithin 100 60000 p.heartbeat_interval_ms)
        × (IsRead "mqtt_reconnect_delay_s" value p.mqtt_reconnect_delay_s
            × IsWithin 1 3600 p.mqtt_reconnect_delay_s)
        × (IsRead "mqtt_reconnect_delay_max_s" value p.mqtt_reconnect_delay_max_s
            × IsWithin 1 3600 p.mqtt_reconnect_delay_max_s)
        × IsOrdered p.mqtt_reconnect_delay_s p.mqtt_reconnect_delay_max_s
  parse_parameters_bounds value p e =
      let c = check_parameters-IsChecked _ _ _ _ p (checked_parameters value p e) in
      (
        read_unsigned_in_range-IsRead _ 100 60000 value _ (omega arith) c.publish,
        read_unsigned_in_range-IsRead _ 100 60000 value _ (omega arith) c.heartbeat,
        read_unsigned_in_range-IsRead _ 1 3600 value _ (omega arith) c.delay,
        read_unsigned_in_range-IsRead _ 1 3600 value _ (omega arith) c.delay_max,
        c.ordered,
      )

  -- A number that the test lets through is the library's, and in the range.
  number_in_range_exact :
      (v : J) (n : ℕ)
      → number_in_range json 16 1000 2000 v ≡ some n
      → (json.number v ≡ n) × (1000 ≤ n) × (n ≤ 2000)
  unfolding number_in_range
  number_in_range_exact v n e = (ground (arith, e), ground (arith, e), ground (arith, e))

  -- Motor parameters that the parser accepts: the four values are the numbers of the array, in its
  -- order, and each is between 1000 and 2000.
  pub parse_pwm_bounds :
      (values : List J) (p : ControlParameters)
      → parse_pwm json values ≡ ok p
      → (a : ℕ) × (b : ℕ) × (c : ℕ) × (d : ℕ) × (p.pwm_us ≡ some (a, b, c, d))
        × (map json.number values ≡ a ∷ b ∷ c ∷ d ∷ [])
        × ((1000 ≤ a) × (a ≤ 2000))
        × ((1000 ≤ b) × (b ≤ 2000))
        × ((1000 ≤ c) × (c ≤ 2000))
        × ((1000 ≤ d) × (d ≤ 2000))
  unfolding parse_pwm
  parse_pwm_bounds [] p e = absurd (ground (arith, e))
  parse_pwm_bounds (v ∷ []) p e = absurd (ground (arith, e))
  parse_pwm_bounds (v ∷ w ∷ []) p e = absurd (ground (arith, e))
  parse_pwm_bounds (v ∷ w ∷ x ∷ []) p e = absurd (ground (arith, e))
  parse_pwm_bounds (v ∷ w ∷ x ∷ y ∷ z ∷ zs) p e = absurd (ground (arith, e))
  parse_pwm_bounds (v ∷ w ∷ x ∷ y ∷ []) p e =
      let (a, ea) = read v (ground (arith, e)) in
      let (b, eb) = read w (ground (arith, e)) in
      let (c, ec) = read x (ground (arith, e)) in
      let (d, ed) = read y (ground (arith, e)) in
      let (na, la, ha) = number_in_range_exact v a ea in
      let (nb, lb, hb) = number_in_range_exact w b eb in
      let (nc, lc, hc) = number_in_range_exact x c ec in
      let (nd, ld, hd) = number_in_range_exact y d ed in
      (
        a,
        b,
        c,
        d,
        ground (arith, e, ea, eb, ec, ed),
        ground (arith, na, nb, nc, nd),
        (la, ha),
        (lb, hb),
        (lc, hc),
        (ld, hd),
      )
    where
      read :
          (u : J)
          → (number_in_range json 16 1000 2000 u ≡ none → ⊥)
          → (n : ℕ) × (number_in_range json 16 1000 2000 u ≡ some n)
      read u some_number = elim (Option-cases (number_in_range json 16 1000 2000 u)) [
        | inl none_read ↦ absurd (some_number none_read)
        | inr found ↦ found
      ]
