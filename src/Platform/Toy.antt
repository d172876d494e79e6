-- ===== src/Platform/Toy.antt =====
-- The interfaces of Platform.antt at concrete types, for the tests: doubles are whole thousandths.
use robot_framework_ros.Prelude.{
  ℕ, ◌+◌, ◌*◌, ◌/◌, ◌%◌, ◌^◌, Option, none, some, List, [], ◌∷◌, Bool, true, false, ltb,
  if◌then◌else◌,
}
use robot_framework_ros.Prelude.Int.{ℤ, pos, ◌+ℤ◌, ◌-ℤ◌, ltb_ℤ, leb_ℤ, pos_part}
use robot_framework_ros.Prelude.Text.{Text, text, text_eq}
use robot_framework_ros.Platform.{Doubles, CoreLib, Params, Curses, RosMath, Pcl}
use robot_framework_ros.Messages.{no_header}

abbrev thousandths : ℕ → ℕ → ℤ
thousandths m e = pos (m * 1000 / 10 ^ e)

instance abbrev pub toy_doubles : Doubles ℤ
toy_doubles = record {
  lit = thousandths;
  neg = λ a. pos 0 -ℤ a;
  add = ◌+ℤ◌;
  sub = ◌-ℤ◌;
  mul = λ a b. pos (pos_part a * pos_part b / 1000);
  div = λ a b. pos (pos_part a * 1000 / pos_part b);
  lt = ltb_ℤ;
  le = leb_ℤ;
  to_text = λ a. pos_part a ∷ [];
  fixed2 = λ a. text "0.00";
  to_u16 = λ a. pos_part a / 1000;
  to_i64 = λ a. pos (pos_part a / 1000);
}

instance abbrev pub toy_core : CoreLib
toy_core = record {
  level_unknown = 0;
  level_noerror = 1;
  level_debug = 2;
  level_info = 3;
  level_notice = 4;
  level_warn = 5;
  level_error = 6;
  level_fatal = 7;
  level_end_of_list = 8;
  type_unknown = 0;
  type_unknown_type = 1;
  type_timing = 9;
  type_end_of_list = 16;
  message_initializing = 1;
  message_noerror = 2;
  message_diagnostic_failed = 3;
  armed_state_armed = 1;
  armed_state_disarmed_cannotarm = 2;
  armed_state_disarmed = 3;
  armed_state_arming = 4;
  pretty_armed_state = λ s. text "ARMED";
  pretty_diagnostic_type = λ t. text "TYPE";
  pretty_diagnostic_message = λ m. text "MESSAGE";
  pretty_level =
      λ l. if ltb 0 l then (if ltb l 8 then text "LEVEL" else text "UNKNOWN") else text "UNKNOWN";
  logger_init = λ l name. true;
  change_logger_level = λ l. ltb l 8;
}

-- The names that are declared, over the values that they have.
pub record ToyParams : Type 0 where
  pub declared : List Text
  pub texts : Text → Option Text
  pub doubles : Text → Option ℤ
  pub text_lists : Text → Option (List Text)
  pub double_lists : Text → Option (List ℤ)

abbrev member : Text → List Text → Bool
member k [] = false
member k (j ∷ m) = if text_eq j k then true else member k m

abbrev or_default : {A : Type 0} → Option A → A → A
or_default none d = d
or_default (some a) d = a

abbrev required : {A : Type 0} → Option A → Text → ToyParams → Option (A × ToyParams)
required none k p = none
required (some a) k p =
    if member k p.declared then none else some (a, record p { declared = k ∷ p.declared })

instance abbrev pub toy_params : Params ℤ ToyParams
toy_params = record {
  declare_text = λ p k d.
      if member k p.declared
      then none
      else some (or_default (p.texts k) d, record p { declared = k ∷ p.declared });
  declare_double = λ p k d.
      if member k p.declared
      then none
      else some (or_default (p.doubles k) d, record p { declared = k ∷ p.declared });
  require_text = λ p k. required (p.texts k) k p;
  require_double = λ p k. required (p.doubles k) k p;
  require_texts = λ p k. required (p.text_lists k) k p;
  require_doubles = λ p k. required (p.double_lists k) k p;
  takes_period = λ d. if ltb_ℤ d (pos 0) then false else true;
}

-- Angles are the first three numbers of a quaternion, and a stamp is whole thousandths.
instance abbrev pub toy_math : RosMath ℤ
toy_math = record {
  seconds = λ s.
      if ltb_ℤ s.sec (pos 0)
      then none
      else some (pos (pos_part s.sec * 1000 + s.nanosec / 1000000));
  stamp_of = λ t. record { sec = pos (pos_part t / 1000000000); nanosec = pos_part t % 1000000000 };
  rpy_of = λ x y z w. (x, y, z);
  of_rpy = λ r p y. (r, p, y, pos 1000);
}

-- A cloud is its points' numbers, and the body of a message too.
instance abbrev pub toy_pcl : Pcl (List ℕ) (List ℕ)
toy_pcl = record {
  new_cloud = some [];
  from_ros_msg = λ h b c. b;
  to_ros_msg = λ c. (no_header, c);
  no_body = [];
}

instance abbrev pub toy_curses : Curses
toy_curses = record {
  has_colors = true;
  getmaxx = λ height width y x. width;
  newwin = λ h w y x. true;
  key_up = pos 259;
  key_down = pos 258;
}
