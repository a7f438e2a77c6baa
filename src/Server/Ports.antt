-- ===== src/Server/Ports.antt =====
-- The port on its way through the `short` of the server's constructor.
use dinner_is_servered.Prelude.{ℕ, ◌%◌, ◌^◌, ◌<◌, ◌≡◌, inl, inr, Bool-cases, ltb, arith}
use dinner_is_servered.Runtime.Numbers.{pos}
use dinner_is_servered.Server.{short_of_int, port_of_short}

-- A port above 32767 is negative as a `short`, and itself again as the number of the port.
pub port_of_short-short_of_int : (n : ℕ) → n < 2 ^ 16 → port_of_short (short_of_int (pos n)) ≡ n
unfolding port_of_short short_of_int
port_of_short-short_of_int n h = elim (Bool-cases (ltb (n % 2 ^ 16) (2 ^ 15))) [
  | inl e ↦ rw e (omega (arith, h))
  | inr e ↦ rw e (omega (arith, h))
]
