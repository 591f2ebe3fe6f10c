-- ===== src/Fossil/Runs.antt =====
-- Runs on the files of tests/data, and the theorems at concrete inputs.
use centrifuge_python.Base.{ℕ, ◌≡◌, refl, ◌≢◌, List, [], ◌∷◌, arith, length, ◌%◌, ◌^◌}
use centrifuge_python.Fossil.{
  Reader, ok, index_error, value_error, out_of_fuel, unterminated, size_not_terminated,
  copy_not_terminated, get_int, checksum, apply_delta, z_digit, get_char, get_int_loop, have_bytes,
  copy_end, copy_command, insert_command, end_command, dispatch, delta_round, delta_loop,
}
use centrifuge_python.Fossil.Apply.{start, apply_delta-ne-out_of_fuel, apply_delta_sound}
use centrifuge_python.Fossil.Checksum.{word_sum, checksum-word_sum}
use centrifuge_python.Fossil.RoundTrip.{
  piece, Command, copy, insert, target, render, apply_delta-render,
}

program : Unit {0}
unfolding z_digit get_char get_int_loop get_int have_bytes copy_end copy_command insert_command
    end_command dispatch delta_round delta_loop apply_delta checksum
program = tt

-- tests/data/4
abbrev origin : List ℕ
origin =
    123 ∷ 34 ∷ 52 ∷ 50 ∷ 49 ∷ 56 ∷ 50 ∷ 102 ∷ 98 ∷ 50 ∷ 52 ∷ 50 ∷ 54 ∷ 51 ∷ 52 ∷ 48 ∷ 97 ∷ 99 ∷ 53
    ∷ 102 ∷ 97 ∷ 100 ∷ 52 ∷ 101 ∷ 53 ∷ 49 ∷ 49 ∷ 100 ∷ 56 ∷ 97 ∷ 50 ∷ 100 ∷ 99 ∷ 52 ∷ 34 ∷ 58 ∷ 123
    ∷ 34 ∷ 116 ∷ 105 ∷ 116 ∷ 108 ∷ 101 ∷ 34 ∷ 58 ∷ 34 ∷ 78 ∷ 101 ∷ 119 ∷ 32 ∷ 110 ∷ 111 ∷ 116 ∷ 101
    ∷ 34 ∷ 125 ∷ 125 ∷ 10 ∷ []

abbrev delta : List ℕ
delta =
    120 ∷ 10 ∷ 106 ∷ 64 ∷ 48 ∷ 44 ∷ 69 ∷ 58 ∷ 70 ∷ 105 ∷ 114 ∷ 115 ∷ 116 ∷ 32 ∷ 110 ∷ 111 ∷ 116
    ∷ 101 ∷ 34 ∷ 125 ∷ 125 ∷ 10 ∷ 53 ∷ 78 ∷ 112 ∷ 72 ∷ 65 ∷ 59 ∷ []

abbrev updated : List ℕ
updated =
    123 ∷ 34 ∷ 52 ∷ 50 ∷ 49 ∷ 56 ∷ 50 ∷ 102 ∷ 98 ∷ 50 ∷ 52 ∷ 50 ∷ 54 ∷ 51 ∷ 52 ∷ 48 ∷ 97 ∷ 99 ∷ 53
    ∷ 102 ∷ 97 ∷ 100 ∷ 52 ∷ 101 ∷ 53 ∷ 49 ∷ 49 ∷ 100 ∷ 56 ∷ 97 ∷ 50 ∷ 100 ∷ 99 ∷ 52 ∷ 34 ∷ 58 ∷ 123
    ∷ 34 ∷ 116 ∷ 105 ∷ 116 ∷ 108 ∷ 101 ∷ 34 ∷ 58 ∷ 34 ∷ 70 ∷ 105 ∷ 114 ∷ 115 ∷ 116 ∷ 32 ∷ 110 ∷ 111
    ∷ 116 ∷ 101 ∷ 34 ∷ 125 ∷ 125 ∷ 10 ∷ []

apply_data_4 : apply_delta origin delta ≡ ok updated
unfolding program
apply_data_4 = refl

-- "tiny" and the delta of tests/data/5
abbrev tiny : List ℕ
tiny = 116 ∷ 105 ∷ 110 ∷ 121 ∷ []

apply_data_5 :
    apply_delta tiny (
      54 ∷ 10 ∷ 54 ∷ 58 ∷ 108 ∷ 105 ∷ 116 ∷ 116 ∷ 108 ∷ 101 ∷ 51 ∷ 79 ∷ 111 ∷ 99 ∷ 72 ∷ 112 ∷ 59
      ∷ [])
    ≡ ok (108 ∷ 105 ∷ 116 ∷ 116 ∷ 108 ∷ 101 ∷ [])
unfolding program
apply_data_5 = refl

apply_empty : apply_delta tiny [] ≡ index_error
unfolding program
apply_empty = refl

apply_no_newline : apply_delta tiny (52 ∷ 59 ∷ []) ≡ value_error size_not_terminated
unfolding program
apply_no_newline = refl

-- "4\n4@", where `get_int` at the end steps back onto the "@"
apply_cut_copy : apply_delta tiny (52 ∷ 10 ∷ 52 ∷ 64 ∷ []) ≡ value_error copy_not_terminated
unfolding program
apply_cut_copy = refl

apply_unterminated : apply_delta tiny (52 ∷ 10 ∷ []) ≡ value_error unterminated
unfolding program
apply_unterminated = refl

checksum-word_sum_example : checksum origin ≡ word_sum origin % 2 ^ 32
checksum-word_sum_example = checksum-word_sum origin

apply_delta-ne-out_of_fuel_example : apply_delta origin delta ≢ out_of_fuel
apply_delta-ne-out_of_fuel_example = apply_delta-ne-out_of_fuel origin delta

apply_delta_sound_example :
    (length updated ≡ (get_int (start delta)).0)
    × (r : Reader) × (r.a ≡ delta)
    × ((get_int r).0 ≡ checksum updated)
apply_delta_sound_example = apply_delta_sound origin delta updated apply_data_4

abbrev commands : List Command
commands = copy 2 1 ∷ insert (33 ∷ 33 ∷ []) ∷ copy 4 0 ∷ []

apply_delta-render_example :
    apply_delta tiny (render tiny commands (1 ∷ [])) ≡ ok (target tiny commands)
unfolding target piece
apply_delta-render_example =
    apply_delta-render tiny commands (1 ∷ []) (omega arith) (omega arith) (omega arith)
