-- ===== src/Examples/Streams.antt =====
-- Instances of the theorems on characters.py's streams of bits, drivers and monitors.
use cocotbext_spacewire.Base.Int.{ℤ, pos}
use cocotbext_spacewire.Base.{
  arith, refl, inl, inr, true, false, none, List, [], ◌∷◌, ◌++◌, Bit, bit_nat, ok, raise,
  runtime_error, Method,
}
use cocotbext_spacewire.Characters.Types.{fct, eop, plain}
use cocotbext_spacewire.Characters.Bits.{byte}
use cocotbext_spacewire.Characters.Encoder.{data_request}
use cocotbext_spacewire.Characters.Encoder as Encoders
use cocotbext_spacewire.Characters.Decoder.{fresh}
use cocotbext_spacewire.Characters.Delivery.{Synced, quiet}
use cocotbext_spacewire.Characters.Conservation.{Taken, push-Taken}
use cocotbext_spacewire.Characters.Spoiling as Spoiling
use cocotbext_spacewire.Characters.Spoiling.{IsPrimitive}
use cocotbext_spacewire.Characters.CharDriver.{
  CharDriver, on_encoder, count_error, force_bad_parity,
}
use cocotbext_spacewire.Characters.CharMonitor.{CharMonitor}
use cocotbext_spacewire.Characters.Strict.{Caught, force_bad_parity-Caught}
use cocotbext_spacewire.Packet.Stream.{data_nchar}

push-Taken_example : Taken (true ∷ true ∷ true ∷ true ∷ false ∷ false ∷ true ∷ []) (fresh []) none
push-Taken_example =
    push-Taken (true ∷ true ∷ true ∷ true ∷ false ∷ false ∷ true ∷ []) (fresh []) none
      (record { buffer = refl; escape = omega arith })

in_step : Synced (quiet []) (fresh [])
in_step = record { same_content = refl; no_injection = refl; idle = (refl, refl); no_escape = refl }

-- A byte, and then an EOP whose parity is spoiled.
primitives-IsPrimitive : IsPrimitive (data_nchar 165) × IsPrimitive (plain eop)
unfolding data_request byte
primitives-IsPrimitive = (Spoiling.by_data (pos 165) refl, Spoiling.control eop (inr (inl refl)))

-- A line that keeps its bits in a list.
abbrev put_bit : Bit → Method (List Bit) (Unit {0})
put_bit b line = (ok tt, line ++ b ∷ [])

abbrev get_bit : Method (List Bit) ℤ
get_bit [] = (raise runtime_error, [])
get_bit (b ∷ line) = (ok (pos (bit_nat b)), line)

abbrev sender : CharDriver (List Bit)
sender = record {
  encoder = quiet [];
  put_bit = put_bit;
  sink = [];
  type_counts = [];
  error_counts = [];
}

abbrev reader : CharMonitor (List Bit)
reader = record {
  decoder = fresh [];
  strict = true;
  queue = plain fct ∷ [];
  get_bit = get_bit;
  source = [];
}

force_bad_parity-Caught_example :
    Caught
      (λ line. line)
      (data_nchar 165 ∷ [])
      (plain eop)
      (force_bad_parity (pos 1) sender).1
      reader
      none
unfolding Encoders.force_bad_parity on_encoder count_error force_bad_parity
force_bad_parity-Caught_example =
    let (a, b) = primitives-IsPrimitive in
    force_bad_parity-Caught (λ line. line) (data_nchar 165 ∷ []) (plain eop) sender reader none
      (λ b bs. refl) (λ b bs. refl) refl refl (a, tt) b in_step refl
