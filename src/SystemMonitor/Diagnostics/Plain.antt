-- ===== src/SystemMonitor/Diagnostics/Plain.antt =====
-- The rows in a window of three columns or more, which the loop of `updateWindow` makes without an
-- exception.
use robot_framework_ros.Prelude.{
  ℕ, zero, suc, ◌+◌, ◌-◌, ◌<◌, leb, length, take, length-take, ◌≤◌, ◌≡◌, refl, ap, ◌∙◌, Bool, true,
  false, Option, none, some, List, [], ◌∷◌, ◌==◌, ◌||◌, arith, if◌then◌else◌, inl, inr, Bool-cases,
  ==_iff,
}
use robot_framework_ros.Prelude.Text.{Text}
use robot_framework_ros.Prelude.Run.{ok}
use robot_framework_ros.Prelude.Fallible.{◌>>=◌}
use robot_framework_ros.Platform.{Doubles, CoreLib}
use robot_framework_ros.SystemMonitor.Window.{no_color}
use robot_framework_ros.SystemMonitor.Diagnostics.{
  Monitors, DiagnosticRow, clip, row_text, type_row, find_type, diagnostic_color, draw_types,
}

-- The row of a type.
abbrev pub row_at : ℕ → List (ℕ × DiagnosticRow) → Option DiagnosticRow
row_at t [] = none
row_at t ((u, r) ∷ rows) = if u == t then some r else row_at t rows

-- A text as it stands in a window of that many columns, three at least.
abbrev pub clipped : ℕ → Text → Text
clipped width s = if leb width (length s) then take (width - 3) s else s

pub clipped_bound : (width : ℕ) (s : Text) → 3 ≤ width → length (clipped width s) < width
clipped_bound width s wide = ground (arith, length-take (width - 3) s)

not_yet : (a b : ℕ) → a ≤ b → (a == b) ≡ false → a + 1 ≤ b
not_yet a b h e = ground arith

row_at_other :
    (t u : ℕ) (b : Bool) (r : DiagnosticRow) (rows : List (ℕ × DiagnosticRow))
    → (u == t) ≡ false
    → row_at t (if b then rows else (u, r) ∷ rows) ≡ row_at t rows
row_at_other t u true r rows e = refl
row_at_other t u false r rows e = rw e refl

row_at_same :
    (t u : ℕ) (b : Bool) (r : DiagnosticRow) (rows : List (ℕ × DiagnosticRow))
    → (u == t) ≡ true
    → b ≡ false
    → row_at t (if b then rows else (u, r) ∷ rows) ≡ some r
row_at_same t u b r rows e kept = rw (kept, e) refl

module _ ⦃core : CoreLib⦄ where
  -- The two types that have no row.
  abbrev pub is_skipped : ℕ → Bool
  is_skipped t = t == core.type_unknown || t == core.type_unknown_type

module _ {D : Type 0} ⦃fl : Doubles D⦄ ⦃core : CoreLib⦄ where
  -- The row of a type in a window that is wide enough, and the rows of `count` types from `t` on.
  abbrev pub plain_row : ℕ → ℕ → Monitors D → DiagnosticRow
  plain_row width t m = elim (find_type t m) [
    | none ↦ record { color = no_color; text = core.pretty_diagnostic_type t }
    | some v ↦ record {
      color = diagnostic_color v.node_diagnostic.level;
      text = clipped width (row_text D t v.node_diagnostic);
    }
  ]

  abbrev pub plain_rows : ℕ → ℕ → ℕ → Monitors D → List (ℕ × DiagnosticRow)
  plain_rows width t zero m = []
  plain_rows width t (suc count) m =
      let rest = plain_rows width (t + 1) count m in
      if is_skipped t then rest else (t, plain_row width t m) ∷ rest

  type_row-plain :
      (width t : ℕ) (m : Monitors D) → 3 ≤ width → type_row width t m ≡ ok (plain_row width t m)
  unfolding type_row clip
  type_row-plain width t m wide = ground arith

  pub draw_types-plain :
      (width t count : ℕ) (m : Monitors D)
      → 3 ≤ width
      → draw_types width t count m ≡ ok (plain_rows width t count m)
  unfolding draw_types
  draw_types-plain width t zero m wide = refl
  draw_types-plain width t (suc count) m wide =
      rw (type_row-plain width t m wide, draw_types-plain width (t + 1) count m wide, ◌>>=◌)
        (ground arith)

  pub row_at-plain_rows :
      (width t from count : ℕ) (m : Monitors D)
      → from ≤ t
      → t < from + count
      → is_skipped t ≡ false
      → row_at t (plain_rows width from count m) ≡ some (plain_row width t m)
  row_at-plain_rows width t from zero m low high kept = absurd (omega (arith, low, high))
  row_at-plain_rows width t from (suc count) m low high kept =
      let rest = plain_rows width (from + 1) count m in
      elim (Bool-cases (from == t)) [
        | inl same ↦
            row_at_same t from (is_skipped from) (plain_row width from m) rest same
              (ap is_skipped ((==_iff from t).0 same) ∙ kept)
            ∙ ap (λ (u : ℕ). some (plain_row width u m)) ((==_iff from t).0 same)
        | inr other ↦
            row_at_other t from (is_skipped from) (plain_row width from m) rest other
            ∙ row_at-plain_rows width t (from + 1) count m (not_yet from t low other)
                (omega (arith, high)) kept
      ]
