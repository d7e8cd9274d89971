-- ===== src/Python/Tests.antt =====
-- Values on small inputs.
use po_c_sqlagent.Base.{◌≡◌, refl, ok}
use po_c_sqlagent.Python.Data.{null, bool, str, list, dict, nil, cons, end, field, negsuc}
use po_c_sqlagent.Base.{true}
use po_c_sqlagent.Python.Show.{show}
use po_c_sqlagent.Python.Number.{to_int}

show_nested :
    show (dict (field "a" (list (cons null (cons (str "it's") nil))) (field "b" (bool true) end)))
    ≡ "{'a': [None, \"it's\"], 'b': True}"
unfolding show
show_nested = refl

to_int_text : to_int (str " -1_0 ") ≡ ok (negsuc 9)
unfolding to_int
to_int_text = refl
