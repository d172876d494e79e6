-- ===== src/SystemMonitor/NodeInfo/Row.antt =====
-- The row of a node, and the window's header: `NodeInfoWindow::getNodeInfo` and `getWindowHeader`,
-- with the six columns that the constructor makes. `none` is the `std::length_error` that
-- `std::string(width - size, ' ')` throws where the difference wraps around below 0.
use robot_framework_ros.Prelude.{
  ℕ, ◌+◌, ◌-◌, ◌/◌, ◌%◌, Bool, true, false, Option, none, some, [], ◌∷◌, ◌++◌, length, take, drop,
  replicate, ltb, leb, ◌==◌, ◌&&◌, if◌then◌else◌,
}
use robot_framework_ros.Prelude.Text.{Text, text}
use robot_framework_ros.Platform.{Doubles}
use robot_framework_ros.BaseNode.State.{pretty_state}

-- `std::to_string` of a `uint16_t`.
abbrev digit : ℕ → ℕ
digit n = 48 + n % 10

unfoldable pub u16_text : ℕ → Text
u16_text n =
    if ltb n 10
    then digit n ∷ []
    else if ltb n 100
    then digit (n / 10) ∷ digit n ∷ []
    else if ltb n 1000
    then digit (n / 100) ∷ digit (n / 10) ∷ digit n ∷ []
    else if ltb n 10000
    then digit (n / 1000) ∷ digit (n / 100) ∷ digit (n / 10) ∷ digit n ∷ []
    else digit (n / 10000) ∷ digit (n / 1000) ∷ digit (n / 100) ∷ digit (n / 10) ∷ digit n ∷ []

abbrev pub spaces : ℕ → Text
spaces k = replicate k b' '

-- `tempstr += std::string(width - tempstr.size(), ' ')`, with the subtraction on `size_t`.
unfoldable pub pad : ℕ → Text → Option Text
pad width s = if leb (length s) width then some (s ++ spaces (width - length s)) else none

abbrev starts_with : Text → Text → Bool
starts_with [] s = true
starts_with (a ∷ t) [] = false
starts_with (a ∷ t) (c ∷ s) = a == c && starts_with t s

-- `s.find(t)`, and `s.replace(found, t.length(), "")` if it is found.
unfoldable pub remove_first : Text → Text → Text
remove_first t [] = []
remove_first t (c ∷ s) =
    let rest = c ∷ remove_first t s in
    if starts_with t (c ∷ s) then drop (length t) (c ∷ s) else rest

-- The column NODENAME.
unfoldable pub name_column : ℕ → Text → Text → Option Text
unfolding remove_first pad
name_column width host_device node_name =
    let s = remove_first host_device node_name in
    if ltb width (length s) then some (take (width - 4) s ++ text "... ") else pad width s

infixr 20 ◌beside◌
abbrev pub ◌beside◌ : Option Text → Option Text → Option Text
none beside t = none
some s beside none = none
some s beside some t = some (s ++ t)

module _ {D : Type 0} ⦃fl : Doubles D⦄ where
  -- The number that the column RX shows: not more than 99.99.
  abbrev pub shown_delta : D → D
  shown_delta delta =
      let max_num = fl.add (fl.lit 99 0) (fl.lit 99 2) in
      if fl.lt max_num delta then max_num else delta

  -- The column RX; `snprintf` writes at most 63 characters.
  unfoldable pub rx_column : ℕ → D → Text
  rx_column width delta =
      let s = take 63 (fl.fixed2 (shown_delta delta)) in s ++ spaces (width - length s)

  -- `getNodeInfo`, of the fields of the node that it reads.
  unfoldable pub get_node_info : ℕ → Text → Text → ℕ → Text → D → Bool → Option Text
  unfolding u16_text pad name_column rx_column pretty_state
  get_node_info id host_device node_name node_state ready_to_arm delta selected =
      some (replicate 3 (if selected then b'*' else b' '))
      beside pad 4 (u16_text id)
      beside name_column 70 host_device node_name
      beside pad 14 (pretty_state node_state)
      beside pad 15 ready_to_arm
      beside some (rx_column 6 delta)

-- One column of the header.
unfoldable pub header_column : ℕ → Text → Text
header_column width s =
    if ltb width (length s) then take width s else s ++ spaces (width - length s)

unfoldable pub get_window_header : ℕ → Text
unfolding header_column
get_window_header main_window_width =
    let str =
      header_column 3 []
      ++ header_column 4 (text "ID")
      ++ header_column 70 (text " NodeName ")
      ++ header_column 14 (text " Status ")
      ++ header_column 15 (text " Ready To Arm ")
      ++ header_column 6 (text " Rx ") in
    if ltb main_window_width (length str) then [] else str
