-- ===== src/SystemMonitor/NodeInfo/Width.antt =====
-- The width of the rows of the node list, and when a row cannot be made.
use robot_framework_ros.Prelude.{
  ℕ, ◌+◌, ◌-◌, ◌<◌, ◌≤◌, ◌≡◌, refl, sym, ap, ◌∙◌, Bool, true, false, Option, none, some, ◌++◌,
  length, take, replicate, length-append, length-replicate, length-take, ltb, arith, if◌then◌else◌,
  ltb→lt,
}
use robot_framework_ros.Prelude.Text.{Text, text}
use robot_framework_ros.Platform.{Doubles}
use robot_framework_ros.BaseNode.State.{pretty_state}
use robot_framework_ros.SystemMonitor.NodeInfo.Row.{
  u16_text, spaces, pad, remove_first, name_column, shown_delta, rx_column, ◌beside◌, get_node_info,
  header_column, get_window_header,
}

-- A column that is made, and is as wide as it should be.
abbrev Fills : ℕ → Option Text → Type 0
Fills width o = (t : Text) × (o ≡ some t) × (length t ≡ width)

length-spaces : (k : ℕ) → length (spaces k) ≡ k
length-spaces k = length-replicate k (let blank : ℕ = b' ' in blank)

pad-Fills : (width : ℕ) (s : Text) → length s ≤ width → Fills width (pad width s)
unfolding pad
pad-Fills width s h = (
  s ++ spaces (width - length s),
  ground arith,
  omega (arith, length-append s (spaces (width - length s)), length-spaces (width - length s)),
)

beside-Fills : (j k : ℕ) (o p : Option Text) → Fills j o → Fills k p → Fills (j + k) (o beside p)
beside-Fills j k o p (s, e, f) (t, g, h) =
    (s ++ t, rw (e, g) refl, omega (arith, length-append s t, f, h))

-- The identity fits its column of four below 10000 only.
length-u16_text :
    (n : ℕ)
    → length (u16_text n) ≡ (
        if ltb n 10
        then 1
        else if ltb n 100
        then 2
        else if ltb n 1000
        then 3
        else if ltb n 10000
        then 4
        else 5)
unfolding u16_text
length-u16_text n = ground arith

state_fits : (s : ℕ) → length (pretty_state s) ≤ 14
unfolding pretty_state
state_fits s = ground arith

ltb-false : (a b : ℕ) → ltb a b ≡ false → b ≤ a
ltb-false a b h = ground arith

-- The three dots in place of the end.
cut_length : (s : Text) → 70 < length s → length (take 66 s ++ text "... ") ≡ 70
cut_length s h = omega (arith, length-append (take 66 s) (text "... "), length-take 66 s, h)

shorten-Fills :
    (s : Text) → Fills 70 (if ltb 70 (length s) then some (take 66 s ++ text "... ") else pad 70 s)
shorten-Fills s = go (ltb 70 (length s)) refl
  where
    go :
        (b : Bool)
        → ltb 70 (length s) ≡ b
        → Fills 70 (if b then some (take 66 s ++ text "... ") else pad 70 s)
    go true long = (take 66 s ++ text "... ", refl, cut_length s (ltb→lt 70 (length s) long))
    go false fits = pad-Fills 70 s (ltb-false 70 (length s) fits)

-- A name fills its column of seventy, whatever the name and the host.
name_column-Fills : (host name : Text) → Fills 70 (name_column 70 host name)
unfolding name_column
name_column-Fills host name = shorten-Fills (remove_first host name)

header_length :
    (main_window_width : ℕ)
    → 112 ≤ main_window_width
    → length (get_window_header main_window_width) ≡ 112
unfolding get_window_header header_column
header_length main_window_width h = ground arith

marker-Fills : (selected : Bool) → Fills 3 (some (replicate 3 (if selected then b'*' else b' ')))
marker-Fills selected = (_, refl, refl)

module _ {D : Type 0} ⦃fl : Doubles D⦄ where
  rx_column-length :
      (delta : D) → length (fl.fixed2 (shown_delta delta)) ≤ 6 → length (rx_column 6 delta) ≡ 6
  unfolding rx_column
  rx_column-length delta h =
      let s = fl.fixed2 (shown_delta delta) in
      omega (
        arith,
        length-append (take 63 s) (spaces (6 - length (take 63 s))),
        length-spaces (6 - length (take 63 s)),
        length-take 63 s,
        h,
      )

  -- The row is made, of the widths of its columns together.
  row-Fills :
      (id : ℕ) (host name : Text) (state : ℕ) (ready : Text) (delta : D) (selected : Bool)
      → id < 10000
      → length ready ≤ 15
      → Fills
          (3 + (4 + (70 + (14 + (15 + length (rx_column 6 delta))))))
          (get_node_info id host name state ready delta selected)
  unfolding get_node_info
  row-Fills id host name state ready delta selected small short =
      let k = length (rx_column 6 delta) in
      beside-Fills 3 (4 + (70 + (14 + (15 + k)))) _ _ (marker-Fills selected) (
        beside-Fills 4 (70 + (14 + (15 + k))) _ _
          (pad-Fills 4 (u16_text id) (ground (arith, length-u16_text id)))
          (beside-Fills 70 (14 + (15 + k)) _ _ (name_column-Fills host name) (
            beside-Fills 14 (15 + k) _ _ (pad-Fills 14 (pretty_state state) (state_fits state))
              (beside-Fills 15 k _ _ (pad-Fills 15 ready short) (rx_column 6 delta, refl, refl)))))

  pub row_made :
      (id : ℕ) (host name : Text) (state : ℕ) (ready : Text) (delta : D) (selected : Bool)
      → id < 10000
      → length ready ≤ 15
      → (row : Text) × (get_node_info id host name state ready delta selected ≡ some row)
  row_made id host name state ready delta selected small short =
      let (row, e, h) = row-Fills id host name state ready delta selected small short in (row, e)

  -- The row of a node is made and is exactly as wide as the header that a wide enough main window
  -- shows, whatever the node's names and state, if its identity is below 10000, its arming text no
  -- longer than 15 and the shown number of seconds no longer than 6.
  pub row_aligned :
      (id : ℕ) (host name : Text) (state : ℕ) (ready : Text) (delta : D) (selected : Bool)
      → (main_window_width : ℕ) → id < 10000
      → length ready ≤ 15
      → length (fl.fixed2 (shown_delta delta)) ≤ 6
      → 112 ≤ main_window_width
      → (row : Text) × (get_node_info id host name state ready delta selected ≡ some row)
        × (length row ≡ length (get_window_header main_window_width))
  row_aligned id host name state ready delta selected main small short fits wide =
      let (row, e, h) = row-Fills id host name state ready delta selected small short in
      (
        row,
        e,
        h
            ∙ ap (λ k. 3 + (4 + (70 + (14 + (15 + k))))) (rx_column-length delta fits)
            ∙ sym (header_length main wide),
      )

  -- The row of a node whose identity has five digits is not made: the pad of its column throws.
  pub row_throws :
      (id : ℕ) (host name : Text) (state : ℕ) (ready : Text) (delta : D) (selected : Bool)
      → 10000 ≤ id
      → get_node_info id host name state ready delta selected ≡ none
  unfolding get_node_info pad
  row_throws id host name state ready delta selected big = ground (arith, length-u16_text id)
