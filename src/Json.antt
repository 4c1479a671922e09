-- ===== src/Json.antt =====
-- JSON values, as `orjson.loads` returns them. An object keeps only that it is one: the services
-- that read JSON columns use lists and scalars.
use py_board.Prelude.{String, Bool, List, [], ◌∷◌}
use py_board.Prelude.Int.{ℤ}

mutual
  pub data Json : Type 0 where
    null object fraction : Json
    boolean : Bool → Json
    number : ℤ → Json
    text : String → Json
    list : Items → Json

  pub data Items : Type 0 where
    end : Items
    item : Json → Items → Items

unfoldable pub to_list : Items → List Json
to_list end = []
to_list (item j r) = j ∷ to_list r

-- `parsed if isinstance(parsed, list) else []`
unfoldable pub list_or_empty : Json → List Json
unfolding to_list
list_or_empty (list xs) = to_list xs
list_or_empty _ = []
