-- ===== src/Routing/Methods.antt =====
-- The methods of requests as bits: `MethodType` of pkg/object/httpserver/routers/routers.go.
use easegress.Prelude.{Bool, true, false, ◌||◌, ◌&&◌, none, some, List, [], ◌∷◌, ◌++◌}
use easegress.Prelude.Keys.{Bytes, list_key, nat_key}
use easegress.Prelude.Dict
use easegress.Prelude.Dict.{Dict}

-- The bits of the number, the lowest first.
abbrev pub MethodType : Type 0
MethodType = List Bool

abbrev bit : List Bool → MethodType
bit below = below ++ true ∷ []

abbrev f2 : List Bool
f2 = false ∷ false ∷ []

abbrev f4 : List Bool
f4 = f2 ++ f2

abbrev pub method_connect : MethodType
method_connect = bit (false ∷ [])

abbrev pub method_delete : MethodType
method_delete = bit f2

abbrev pub method_get : MethodType
method_get = bit (false ∷ f2)

abbrev pub method_head : MethodType
method_head = bit f4

abbrev pub method_options : MethodType
method_options = bit (false ∷ f4)

abbrev pub method_patch : MethodType
method_patch = bit (f2 ++ f4)

abbrev pub method_post : MethodType
method_post = bit (false ∷ f2 ++ f4)

abbrev pub method_put : MethodType
method_put = bit (f4 ++ f4)

abbrev pub method_trace : MethodType
method_trace = bit (false ∷ f4 ++ f4)

-- `MALL`, every bit but the lowest.
abbrev pub method_all : MethodType
method_all = false ∷ true ∷ true ∷ true ∷ true ∷ true ∷ true ∷ true ∷ true ∷ true ∷ []

-- `Methods`, by the bytes of the names.
abbrev pub methods : Dict Bytes MethodType
methods =
    (71 ∷ 69 ∷ 84 ∷ [], method_get)
    ∷ (72 ∷ 69 ∷ 65 ∷ 68 ∷ [], method_head)
    ∷ (80 ∷ 79 ∷ 83 ∷ 84 ∷ [], method_post)
    ∷ (80 ∷ 85 ∷ 84 ∷ [], method_put)
    ∷ (80 ∷ 65 ∷ 84 ∷ 67 ∷ 72 ∷ [], method_patch)
    ∷ (68 ∷ 69 ∷ 76 ∷ 69 ∷ 84 ∷ 69 ∷ [], method_delete)
    ∷ (67 ∷ 79 ∷ 78 ∷ 78 ∷ 69 ∷ 67 ∷ 84 ∷ [], method_connect)
    ∷ (79 ∷ 80 ∷ 84 ∷ 73 ∷ 79 ∷ 78 ∷ 83 ∷ [], method_options)
    ∷ (84 ∷ 82 ∷ 65 ∷ 67 ∷ 69 ∷ [], method_trace)
    ∷ []

-- A missing name is the number 0.
unfoldable pub method_of : Bytes → MethodType
method_of name = elim (Dict.get methods name) [ some m ↦ m | none ↦ [] ]

-- Whether `a & b` is not 0.
unfoldable pub share_bit : MethodType → MethodType → Bool
share_bit [] b = false
share_bit (x ∷ a) [] = false
share_bit (x ∷ a) (y ∷ b) = x && y || share_bit a b

-- `a | b`
unfoldable pub or_bits : MethodType → MethodType → MethodType
or_bits [] b = b
or_bits (x ∷ a) [] = x ∷ a
or_bits (x ∷ a) (y ∷ b) = (x || y) ∷ or_bits a b
