-- ===== src/Config/Orphans.antt =====
-- internal/config/config.go: the branch "target key found before [[targets]]" is dead.
use pingmon.Prelude.{
  ℕ, zero, suc, ◌<◌, List, [], ◌∷◌, Option, none, some, ◌≡◌, ◌≢◌, refl, arith, length, get_elem?,
  length-set_elem, length-append, inl, inr, Option-cases,
}
use pingmon.Prelude.Text.{Text, cut, trim_space}
use pingmon.Model.{PingTarget, PingParams}
use pingmon.Config.Defs.{Config}
use pingmon.Config.Values.{orphan_target_key, Outcome, ok, err, parse_int, strip_comment}
use pingmon.Config.Toml.{
  Parser, Section, top, params, targets, set_config_value, set_params_value, set_target_value,
  set_value, step_line, blank_target, at_line, run_lines, scan_lines, parse_supervisor_toml,
}
use pingmon.Config.Lines.{Outcome-cases, start}

get_elem?-eq-some :
    {A : Type 0} (xs : List A) (i : ℕ) → i < length xs → (x : A) × (get_elem? xs i ≡ some x)
get_elem?-eq-some [] i h = elim h [ ]
get_elem?-eq-some (x ∷ xs) zero h = (x, refl)
get_elem?-eq-some (x ∷ xs) (suc i) h = get_elem?-eq-some xs i (omega arith)

parse_int-ne-orphan : (key value : Text) → parse_int key value ≢ err orphan_target_key
unfolding parse_int
parse_int-ne-orphan key value = ground arith

module _ (key value : Text) where
  set_config_value-ne-orphan : (c : Config) → set_config_value c key value ≢ err orphan_target_key
  unfolding set_config_value
  set_config_value-ne-orphan c = ground (arith, parse_int-ne-orphan key value)

  set_params_value-ne-orphan :
      (p : PingParams) → set_params_value p key value ≢ err orphan_target_key
  unfolding set_params_value
  set_params_value-ne-orphan p = ground (arith, parse_int-ne-orphan key value)

  set_target_value-ne-orphan :
      (t : PingTarget) → set_target_value t key value ≢ err orphan_target_key
  unfolding set_target_value
  set_target_value-ne-orphan t = ground (arith, parse_int-ne-orphan key value)

-- In the section of targets the current target is one of the list.
abbrev Aims : Section → Option ℕ → ℕ → Type 0
Aims targets (some i) n = i < n
Aims targets none n = ⊥
Aims top o n = Unit
Aims params o n = Unit

abbrev AimsIn : Parser → Type 0
AimsIn p = Aims p.section p.current_target (length p.cfg.targets)

abbrev Safe : Outcome Parser → Type 0
Safe (ok q) = AimsIn q
Safe (err r) = r ≢ orphan_target_key

set_target-Safe :
    (p : Parser) (key value : Text) (o : Option ℕ)
    → p.section ≡ targets
    → p.current_target ≡ o
    → Aims targets o (length p.cfg.targets)
    → Safe (set_value targets p key value)
unfolding set_value
set_target-Safe p key value none s e h = absurd h
set_target-Safe p key value (some i) s e h =
    let (t, found) = get_elem?-eq-some p.cfg.targets i h in
    elim (Outcome-cases (set_target_value t key value)) [
      | inl (t', stored) ↦ ground (arith, length-set_elem p.cfg.targets i t')
      | inr (r, fails) ↦ ground (arith, set_target_value-ne-orphan key value t)
    ]

set_value-Safe :
    (s : Section) (p : Parser) (key value : Text)
    → p.section ≡ s
    → AimsIn p
    → Safe (set_value s p key value)
set_value-Safe top p key value e h = elim (Outcome-cases (set_config_value p.cfg key value)) [
  | inl (c, stored) ↦ unfold set_value in ground arith
  | inr (r, fails) ↦ unfold set_value in ground (arith, set_config_value-ne-orphan key value p.cfg)
]
set_value-Safe params p key value e h =
    elim (Outcome-cases (set_params_value p.cfg.params key value)) [
      | inl (c, stored) ↦ unfold set_value in ground arith
      | inr (r, fails) ↦
          unfold set_value in ground (arith, set_params_value-ne-orphan key value p.cfg.params)
    ]
set_value-Safe targets p key value e h =
    set_target-Safe p key value p.current_target e refl (ground arith)

step_line-Safe : (p : Parser) (line : Text) → AimsIn p → Safe (step_line p line)
unfolding step_line
step_line-Safe p line h = elim (Option-cases (cut b'=' line)) [
  | inl missing ↦ ground (arith, length-append p.cfg.targets (blank_target ∷ []))
  | inr ((key, value), found) ↦ ground (
    arith,
    length-append p.cfg.targets (blank_target ∷ []),
    set_value-Safe p.section p (trim_space key) (trim_space value) refl h,
  )
]

run_lines-ne-orphan :
    (k : ℕ) (p : Parser) (lines : List Text) (n : ℕ)
    → AimsIn p
    → run_lines step_line k p lines ≢ at_line n orphan_target_key
unfolding run_lines
run_lines-ne-orphan k p [] n h = λ e. cc
run_lines-ne-orphan k p (line ∷ lines) n h =
    elim (Outcome-cases (step_line p (strip_comment line))) [
      | inl (q, s) ↦ ground (
        arith,
        run_lines-ne-orphan (suc k) q lines n (rw s at (step_line-Safe p (strip_comment line) h)),
      )
      | inr (r, s) ↦ ground (arith, rw s at (step_line-Safe p (strip_comment line) h))
    ]

-- No input makes the parser report a target key outside a target.
pub parse_supervisor_toml-ne-orphan :
    (input : Text) (cfg : Config) (n : ℕ)
    → parse_supervisor_toml input cfg ≢ at_line n orphan_target_key
unfolding parse_supervisor_toml
parse_supervisor_toml-ne-orphan input cfg n =
    ground (arith, run_lines-ne-orphan 0 (start cfg) (scan_lines input) n tt)
