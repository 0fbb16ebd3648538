-- ===== src/Program/Settings.antt =====
-- What the flags make of the configuration.
use nats_kafka.Base.{String, false, str_eq, ◌≡◌, refl, sym, ◌∙◌, ◌↔◌, Bool-cases, inl, inr}
use nats_kafka.Base.Outcome.{Outcome, ok, fail, panic}
use nats_kafka.Conf.{BridgeConfig, default_bridge_config}
use nats_kafka.Conf.Reflect.{load_bridge_config}
use nats_kafka.Bridge.Reconnect.{Bridge}
use nats_kafka.Program.{
  Flags, Environment, chosen_file, apply_config_file, with_flags, flagged, initialize_from_flags,
}

flagged_ok :
    (f : Flags) (r : Outcome (Unit {0}) × BridgeConfig)
    → ((flagged f r).0 ≡ r.0) × (r.0 ≡ ok tt → (flagged f r).1 ≡ with_flags f r.1)
unfolding flagged
flagged_ok f (ok u, c) = (refl, λ h. refl)
flagged_ok f (fail e, c) = (refl, λ h. cc)
flagged_ok f (panic, c) = (refl, λ h. cc)

apply_config_file_iff :
    (e : Environment) (file : String) (c : BridgeConfig)
    → ((apply_config_file e file c).0 ≡ ok tt) ↔ (
        (str_eq (chosen_file e file) "" ≡ false)
        × ((load_bridge_config e.conversions e.outside (chosen_file e file) c).0 ≡ ok tt))
unfolding apply_config_file
apply_config_file_iff e file c = elim (Bool-cases (str_eq (chosen_file e file) "")) [
  | inl missing ↦ rw missing (λ h. cc, λ h. cc (h.0))
  | inr named ↦ rw named (λ h. (refl, h), λ h. h.1)
]

-- The bridge is configured without an error exactly if a file is named, by the flag or else by the
-- variable, and that file loads over the default configuration.
initialize_from_flags_iff :
    (e : Environment) (f : Flags) (b : Bridge)
    → ((initialize_from_flags e f b).0 ≡ ok tt) ↔ (
        (str_eq (chosen_file e f.config_file) "" ≡ false)
        × ((load_bridge_config e.conversions e.outside
              (chosen_file e f.config_file)
              default_bridge_config).0
            ≡ ok tt))
unfolding initialize_from_flags
initialize_from_flags_iff e f b =
    let applied = apply_config_file e f.config_file default_bridge_config in
    let same = (flagged_ok f applied).0 in
    let both = apply_config_file_iff e f.config_file default_bridge_config in
    (λ h. both.0 (sym same ∙ h), λ h. same ∙ both.1 h)
