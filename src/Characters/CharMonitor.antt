-- ===== src/Characters/CharMonitor.antt =====
-- characters.py: `CharMonitor`. The object below it is `K`, with its `get_bit`; `sim_time` is what
-- `_get_sim_time` gives.
use cocotbext_spacewire.Base.Int.{ℤ}
use cocotbext_spacewire.Base.{
  ℕ, zero, suc, Bool, true, false, Option, none, some, List, [], ◌∷◌, ◌++◌, Text, if◌then◌else◌,
  Outcome, ok, raise, Exception, Method, ◌>>=◌, ◌>>◌, return, throw, modify,
}
use cocotbext_spacewire.Base as Base
use cocotbext_spacewire.Characters.Types.{Character}
use cocotbext_spacewire.Characters.Errors.{error_types, contains, escape_error, parity_error}
use cocotbext_spacewire.Characters.Decoder.{Decoder, feed}
use cocotbext_spacewire.Characters.CharDriver.{Adapter, resolve_method}

pub record CharMonitor (K : Type 0) : Type 0 where
  pub decoder : Decoder
  pub strict : Bool
  pub queue : List Character
  pub get_bit : Method K ℤ
  pub source : K

-- The exception of a strict monitor.
unfoldable pub strict_exception : Text → Exception
strict_exception error =
    if contains escape_error (error_types (some error))
    then Base.escape_error
    else if contains parity_error (error_types (some error))
    then Base.parity_error
    else Base.protocol_error

module _ {K : Type 0} where
  unfoldable pub init : Adapter (Method K ℤ) → K → Decoder → Bool → Outcome (CharMonitor K)
  init bit_source source decoder strict = elim (resolve_method bit_source) [
    | ok get_bit ↦ ok (record {
      decoder = decoder;
      strict = strict;
      queue = [];
      get_bit = get_bit;
      source = source;
    })
    | raise e ↦ raise e
  ]

  abbrev pub enqueue : Character → Method (CharMonitor K) (Unit {0})
  enqueue c m = (ok tt, record m { queue = m.queue ++ c ∷ [] })

  -- `_publish`
  unfoldable pub publish_as : Option Text → Character → Method (CharMonitor K) (Unit {0})
  publish_as none c m = enqueue c m
  publish_as (some error) c m =
      if m.strict then (raise (strict_exception error), m) else enqueue c m

  unfoldable pub publish : Character → Method (CharMonitor K) (Unit {0})
  publish c = publish_as c.error c

  unfoldable pub publish_all : List Character → Method (CharMonitor K) (Unit {0})
  unfolding publish
  publish_all [] = return tt
  publish_all (c ∷ cs) = publish c >> publish_all cs

  unfoldable pub read_bit : Method (CharMonitor K) ℤ
  read_bit m = let (r, source) = m.get_bit m.source in (r, record m { source = source })

  unfoldable pub feed_decoder : ℤ → Option ℕ → Method (CharMonitor K) (List Character)
  feed_decoder v sim_time m =
      let (r, decoder) = feed v sim_time m.decoder in (r, record m { decoder = decoder })

  -- One round of `run`.
  unfoldable pub round : Option ℕ → Method (CharMonitor K) (Unit {0})
  unfolding read_bit feed_decoder
  round sim_time = do bit ← read_bit; characters ← feed_decoder bit sim_time; publish_all characters

  -- `run` never returns: so many rounds of it, with the same simulation time.
  unfoldable pub run : Option ℕ → ℕ → Method (CharMonitor K) (Unit {0})
  run sim_time zero = return tt
  run sim_time (suc n) = round sim_time >> run sim_time n

  -- `recv`, or nothing while it waits.
  unfoldable pub recv_from : List Character → CharMonitor K → Option Character × CharMonitor K
  recv_from [] m = (none, m)
  recv_from (c ∷ cs) m = (some c, record m { queue = cs })

  unfoldable pub recv : CharMonitor K → Option Character × CharMonitor K
  unfolding recv_from
  recv m = recv_from m.queue m
