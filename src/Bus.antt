-- ===== src/Bus.antt =====
-- cocotbext/spacewire/bus.py: `SpaceWireBus`. A handle is the simulator's, `H`; `entity` gives the handle
-- below it that has a name, or `none` where `getattr` raises an `AttributeError`.
use cocotbext_spacewire.Base.{
  ◌≡◌, refl, inl, inr, Option, none, some, Option-cases, [], ◌++◌, Text, codes, text_eq,
  if◌then◌else◌, Outcome, ok, raise, attribute_error, and_then, ◌⊎◌,
}

-- The handles `di`, `si`, `do` and `so`, in this order.
pub record Bus (H : Type 0) : Type 0 where
  pub prefix : Text
  pub data_in : H
  pub strobe_in : H
  pub data_out : H
  pub strobe_out : H

-- `_hdl_name`
unfoldable pub hdl_name : Text → Text → Text
hdl_name prefix signal_name =
    if text_eq prefix [] then signal_name else prefix ++ codes "_" ++ signal_name

module _ {H : Type 0} (entity : Text → Option H) where
  -- `_lookup_signal`
  unfoldable pub lookup_signal : Text → Text → Outcome H
  lookup_signal prefix signal_name = elim (entity (hdl_name prefix signal_name)) [
    | some signal ↦ ok signal
    | none ↦ raise attribute_error
  ]

  unfoldable pub init : Text → Outcome (Bus H)
  init prefix = and_then (lookup_signal prefix (codes "di")) (λ data_in.
      and_then (lookup_signal prefix (codes "si")) (λ strobe_in.
        and_then (lookup_signal prefix (codes "do")) (λ data_out.
          and_then (lookup_signal prefix (codes "so")) (λ strobe_out. ok (record {
            prefix = prefix;
            data_in = data_in;
            strobe_in = strobe_in;
            data_out = data_out;
            strobe_out = strobe_out;
          })))))

  lookup_signal-cases :
      (prefix signal_name : Text)
      → ((h : H) × (entity (hdl_name prefix signal_name) ≡ some h)
          × (lookup_signal prefix signal_name ≡ ok h))
        ⊎ (entity (hdl_name prefix signal_name) ≡ none)
          × (lookup_signal prefix signal_name ≡ raise attribute_error)
  unfolding lookup_signal
  lookup_signal-cases prefix signal_name =
      elim (Option-cases (entity (hdl_name prefix signal_name))) [
        | inl e ↦ inr (e, rw (e, lookup_signal) refl)
        | inr (h, e) ↦ inl (h, e, rw (e, lookup_signal) refl)
      ]

  -- A bus has the four handles with its prefix in front of their names.
  pub record IsResolved (prefix : Text) (bus : Bus H) : Type 0 where
    pub same_prefix : bus.prefix ≡ prefix
    pub data_in : entity (hdl_name prefix (codes "di")) ≡ some bus.data_in
    pub strobe_in : entity (hdl_name prefix (codes "si")) ≡ some bus.strobe_in
    pub data_out : entity (hdl_name prefix (codes "do")) ≡ some bus.data_out
    pub strobe_out : entity (hdl_name prefix (codes "so")) ≡ some bus.strobe_out

  -- The constructor returns a bus with the four handles, or one of them is missing and it raises the
  -- `AttributeError`.
  init-cases :
      (prefix : Text)
      → ((bus : Bus H) × (init prefix ≡ ok bus) × IsResolved prefix bus)
        ⊎ (init prefix ≡ raise attribute_error)
  unfolding init
  init-cases prefix = elim (lookup_signal-cases prefix (codes "di")) [
    | inr (e, q) ↦ inr (rw q refl)
    | inl (a, ea, qa) ↦ elim (lookup_signal-cases prefix (codes "si")) [
      | inr (e, q) ↦ inr (rw (qa, q) refl)
      | inl (b, eb, qb) ↦ elim (lookup_signal-cases prefix (codes "do")) [
        | inr (e, q) ↦ inr (rw (qa, qb, q) refl)
        | inl (c, ec, qc) ↦ elim (lookup_signal-cases prefix (codes "so")) [
          | inr (e, q) ↦ inr (rw (qa, qb, qc, q) refl)
          | inl (d, ed, qd) ↦ inl (
            record { prefix = prefix; data_in = a; strobe_in = b; data_out = c; strobe_out = d },
            rw (qa, qb, qc, qd) refl,
            record {
              same_prefix = refl;
              data_in = ea;
              strobe_in = eb;
              data_out = ec;
              strobe_out = ed;
            },
          )
        ]
      ]
    ]
  ]
