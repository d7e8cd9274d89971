-- ===== src/Text/Tests.antt =====
-- The text operations on small inputs.
use po_c_sqlagent.Base.{◌≡◌, refl, true}
use po_c_sqlagent.Text.{
  lower, contains, replace, strip, is_space, sub_non_words, after_last, show_nat,
}

lower_mixed : lower "Total РЫБА 7" ≡ "total рыба 7"
unfolding lower
lower_mixed = refl

contains_middle : contains "timed out" "request timed out after 3s" ≡ true
unfolding contains
contains_middle = refl

replace_quotes : replace "'" "''" "O'Hara" ≡ "O''Hara"
unfolding replace
replace_quotes = refl

strip_both : strip is_space "  a b " ≡ "a b"
unfolding strip is_space
strip_both = refl

sub_runs : sub_non_words "net -- paid!" ≡ "net_paid_"
unfolding sub_non_words
sub_runs = refl

after_last_dot : after_last "." "a.b.c" ≡ "c"
unfolding after_last
after_last_dot = refl

show_1234 : show_nat 1230 ≡ "1230"
unfolding show_nat
show_1234 = refl
