-- ===== src/Server/Start.antt =====
-- main/main.c: `main`, up to the loop that accepts connections.
use ken_code_de_bridge.Base.{
  Bytes, List, Option, [], atoi, codes, none, pos, refl, some, ℤ, ◌∷◌, ◌≡◌,
}
use ken_code_de_bridge.Vendors.{Vendor}
use ken_code_de_bridge.Vendors.Table.{Functions, vendor_get, vendors_get_all}

-- What `main` comes to: the end of a program that has no port, or the service of a port, with the
-- vendors that `main_init` has started.
pub data Start (D : Type 0) : Type 0 where
  no_port : Start D
  serves : ℤ → List (Vendor D × Functions) → Start D

unfoldable pub main_init : {D : Type 0} → List (Vendor D × Functions)
unfolding vendors_get_all
main_init = vendors_get_all

-- The arguments, the name of the program first.
unfoldable pub main : {D : Type 0} → List Bytes → Start D
unfolding main_init atoi
main (program ∷ port ∷ others) = serves (atoi port) main_init
main arguments = no_port

-- The names of the vendors that are started, and the port.
abbrev names : {D : Type 0} → List (Vendor D × Functions) → List (Option Bytes)
names [] = []
names ((vendor, functions) ∷ vendors) = vendor.name ∷ names vendors

abbrev summary : {D : Type 0} → Start D → Option (ℤ × List (Option Bytes))
summary no_port = none
summary (serves port vendors) = some (port, names vendors)

starts_three :
    (D : Type 0)
    → summary (main {D = D} (codes "bridge" ∷ codes "12345" ∷ []))
      ≡ some
          (pos 12345, some (codes "btc38") ∷ some (codes "bittrex") ∷ some (codes "poloniex") ∷ [])
unfolding main vendors_get_all vendor_get
starts_three D = refl
