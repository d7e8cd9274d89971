-- ===== src/Database/JsonSafe.antt =====
-- sqlagent/db.py, json_safe: the values of the driver as JSON.
use po_c_sqlagent.Base.{String}
use po_c_sqlagent.Python.{
  Value, str, float, list, dict, Values, nil, cons, Fields, end, Float, set_field,
}

-- A value of the driver: one that is JSON already; a date or a time, with its ISO text; a Decimal, with
-- the float that it becomes; a list or a tuple; a mapping, with the text of each key.
mutual
  pub data Cell : Type 0 where
    plain : Value → Cell
    moment : (iso : String) → Cell
    decimal : Float → Cell
    sequence : Cells → Cell
    mapping : Entries → Cell

  pub data Cells : Type 0 where
    no_cells : Cells
    cell : Cell → Cells → Cells

  pub data Entries : Type 0 where
    no_entries : Entries
    entry : String → Cell → Entries → Entries

-- JSON stays as it is. In a mapping a later key of the same text wins.
unfoldable mutual
  unfolding set_field

  pub json_safe : Cell → Value
  json_safe (plain v) = v
  json_safe (moment iso) = str iso
  json_safe (decimal f) = float f
  json_safe (sequence cells) = list (safe_items cells)
  json_safe (mapping entries) = dict (safe_fields entries end)

  pub safe_items : Cells → Values
  safe_items no_cells = nil
  safe_items (cell c cells) = cons (json_safe c) (safe_items cells)

  pub safe_fields : Entries → Fields → Fields
  safe_fields no_entries fs = fs
  safe_fields (entry k c entries) fs = safe_fields entries (set_field k (json_safe c) fs)
