-- ===== src/Link/BadCharacters.antt =====
-- link.py: the characters that a state of a link does not allow.
use cocotbext_spacewire.Base.{ℕ, ◌<◌, ◌≡◌, ◌≢◌, ◌⊎◌, ◌↔◌, refl, Bool, true, arith}
use cocotbext_spacewire.LinkFsm.{
  State, error_reset, connecting, run, Event, credit_err, got_null, got_fct, got_n_char,
  got_time_code, LinkFsm, output, feed, update_flags, enter, handler, Output,
}
use cocotbext_spacewire.LinkFsm.Handshake.{next}
use cocotbext_spacewire.LinkFsm.Graph.{IsFailure, feed-error_reset_iff}
use cocotbext_spacewire.FlowControl.{on_fct_received, on_nchar_received}
use cocotbext_spacewire.Characters.Types.{
  CharType, fct, eop, eep, data_char, null, timecode, broadcast, Character,
}
use cocotbext_spacewire.Link.State.{Link}
use cocotbext_spacewire.Link.Fsm.{feed_fsm, on_state_change, start_timer}
use cocotbext_spacewire.Link.Receive.{receive_fct, receive_nchar}
use cocotbext_spacewire.Link.Timing.{feed_fsm-cases, stepped}

abbrev pub IsNCharType : CharType → Type 0
IsNCharType type = (type ≡ data_char) ⊎ (type ≡ eop) ⊎ (type ≡ eep)

abbrev pub IsTimeType : CharType → Type 0
IsTimeType type = (type ≡ timecode) ⊎ (type ≡ broadcast)

-- A character that a state does not allow, by gotNULL and the two credits: one that comes too early, or
-- one that the credit does not allow.
abbrev pub IsBad : State → Bool → ℕ → ℕ → CharType → Type 0
IsBad error_reset latched tx_credit rx_credit type = ⊥
IsBad connecting latched tx_credit rx_credit type =
    IsNCharType type ⊎ IsTimeType type ⊎ (type ≡ fct) × (48 < tx_credit)
IsBad run latched tx_credit rx_credit type =
    (type ≡ fct) × (48 < tx_credit) ⊎ IsNCharType type × (rx_credit ≡ 0)
IsBad _ latched tx_credit rx_credit type =
    (latched ≡ true) × ((type ≡ fct) ⊎ IsNCharType type ⊎ IsTimeType type)

on_state_change-fsm : (out : Output) (l : Link) → (on_state_change out l).fsm ≡ l.fsm
unfolding on_state_change start_timer
on_state_change-fsm out l = ground arith

on_state_change-credit :
    (out : Output) (l : Link) → out.state ≢ error_reset → (on_state_change out l).credit ≡ l.credit
unfolding on_state_change start_timer
on_state_change-credit out l h = ground arith

pub feed_fsm-fsm : (e : Event) (l : Link) → (feed_fsm e l).fsm ≡ feed e l.fsm
feed_fsm-fsm e l =
    feed_fsm-cases (λ m. m.fsm ≡ feed e l.fsm) e l (λ same. refl)
      (λ changed. on_state_change-fsm (output (feed e l.fsm)) (stepped e l))

pub feed_fsm-credit :
    (e : Event) (l : Link) → (feed e l.fsm).state ≢ error_reset → (feed_fsm e l).credit ≡ l.credit
unfolding output
feed_fsm-credit e l h =
    feed_fsm-cases (λ m. m.credit ≡ l.credit) e l (λ same. refl)
      (λ changed. on_state_change-credit (output (feed e l.fsm)) (stepped e l) h)

-- An event resets the link exactly if it is an error of the state.
pub event_lem :
    (e : Event) (l : Link)
    → l.fsm.state ≢ error_reset
    → ((feed_fsm e l).fsm.state ≡ error_reset) ↔ IsFailure l.fsm.state l.fsm.got_null_latched e
event_lem e l out = rw (feed_fsm-fsm e l) (feed-error_reset_iff e l.fsm out)

pub null-harmless :
    (s : State) (latched : Bool) (tx rx : ℕ)
    → IsFailure s latched got_null ↔ IsBad s latched tx rx null
null-harmless s latched tx rx = ground arith

pub time-harmful :
    (type : CharType) (s : State) (latched : Bool) (tx rx : ℕ)
    → IsTimeType type
    → IsFailure s latched got_time_code ↔ IsBad s latched tx rx type
time-harmful type s latched tx rx t = ground arith

credit_err-IsFailure :
    (s : State) (latched : Bool) → IsFailure s latched credit_err ↔ ((s ≡ connecting) ⊎ (s ≡ run))
credit_err-IsFailure s latched = ground arith

-- The states that an FCT or an N-Char leads to, where it is no error.
pub fct-next :
    (f : LinkFsm)
    → (next got_fct f).state ≢ error_reset
    → (((next got_fct f).state ≡ connecting) ⊎ ((next got_fct f).state ≡ run))
      ↔ ((f.state ≡ connecting) ⊎ (f.state ≡ run))
unfolding update_flags handler enter
fct-next f h = ground arith

pub nchar-next :
    (f : LinkFsm)
    → (next got_n_char f).state ≢ error_reset
    → ((next got_n_char f).state ≡ run) ↔ (f.state ≡ run)
unfolding update_flags handler enter
nchar-next f h = ground arith

pub receive_fct-state :
    (l : Link)
    → l.fsm.state ≢ error_reset
    → ((receive_fct l).fsm.state ≡ error_reset)
      ↔ ((48 < l.credit.tx_credit) × ((l.fsm.state ≡ connecting) ⊎ (l.fsm.state ≡ run)))
unfolding receive_fct on_fct_received
receive_fct-state l out =
    let e = event_lem credit_err l out in
    let f = credit_err-IsFailure l.fsm.state l.fsm.got_null_latched in ground arith

pub receive_nchar-state :
    (c : Character) (l : Link)
    → l.fsm.state ≢ error_reset
    → ((receive_nchar c l).fsm.state ≡ error_reset)
      ↔ ((l.credit.rx_credit ≡ 0) × (l.fsm.state ≡ run))
unfolding receive_nchar on_nchar_received
receive_nchar-state c l out =
    let e = event_lem credit_err l out in
    let f = credit_err-IsFailure l.fsm.state l.fsm.got_null_latched in ground arith

pub receive_nchar-dropped :
    (c : Character) (l : Link)
    → l.fsm.state ≡ error_reset
    → (receive_nchar c l).fsm.state ≡ error_reset
unfolding receive_nchar
receive_nchar-dropped c l h = ground arith

-- What the two credits and gotNULL of `l` make of a character.
abbrev pub IsBadFor : Link → CharType → Type 0
IsBadFor l type =
    IsBad l.fsm.state l.fsm.got_null_latched l.credit.tx_credit l.credit.rx_credit type

pub fct-early :
    (s : State) (latched : Bool) (tx rx : ℕ)
    → IsFailure s latched got_fct
    → IsBad s latched tx rx fct
fct-early s latched tx rx h = ground arith

pub fct-late :
    (s : State) (latched : Bool) (tx rx : ℕ)
    → s ≢ error_reset
    → (IsFailure s latched got_fct → ⊥)
    → ((48 < tx) × ((s ≡ connecting) ⊎ (s ≡ run))) ↔ IsBad s latched tx rx fct
fct-late s latched tx rx out h = ground arith

pub nchar-early :
    (type : CharType) (s : State) (latched : Bool) (tx rx : ℕ)
    → IsNCharType type
    → IsFailure s latched got_n_char
    → IsBad s latched tx rx type
nchar-early type s latched tx rx t h = ground arith

pub nchar-late :
    (type : CharType) (s : State) (latched : Bool) (tx rx : ℕ)
    → IsNCharType type
    → s ≢ error_reset
    → (IsFailure s latched got_n_char → ⊥)
    → ((rx ≡ 0) × (s ≡ run)) ↔ IsBad s latched tx rx type
nchar-late type s latched tx rx t out h = ground arith
