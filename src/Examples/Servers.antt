-- ===== src/Examples/Servers.antt =====
-- A listener and a server: a concrete function for each operation of the interface. A listener is its
-- port, 7 stands for a port that is taken, and the server ends at once.
use mesh_pad.Base.{
  ℕ, ◌≡◌, ◌≢◌, refl, ap, String, some, none, [], ◌∷◌, ◌++◌, Result, ok, err, nat_beq, if◌then◌else◌,
  arith,
}
use mesh_pad.Base.Text.Decimal.{decimal}
use mesh_pad.Base.Text.Unsigned.{parse_u16}
use mesh_pad.External.Net.{Net}
use mesh_pad.Sidecar.Server.{RunsAt, main, main_lem}
use mesh_pad.Examples.Trees.{trees}
use mesh_pad.Examples.Network.{network}

abbrev listen : String → ℕ → Result ℕ String
listen host port =
    if nat_beq port 7
    then err "Address already in use"
    else ok (if nat_beq port 0 then 49152 else port)

pub listen-ok : (host : String) (port l : ℕ) → port ≢ 0 → listen host port ≡ ok l → l ≡ port
listen-ok host port l h e = ground arith

instance abbrev pub listening : Net
listening = record {
  TcpListener = ℕ;
  bind = listen;
  local_port = ok;
  serve = λ l s. some (ok tt);
  local_port-bind = λ host port l h e. ap ok (listen-ok host port l h e);
}

main_lem_example :
    RunsAt 8080 (main (some (decimal 8080)) [])
    × RunsAt 8080 (main none ("meshpad" ∷ (("-v" ∷ []) ++ "--port" ∷ decimal 8080 ∷ [])))
main_lem_example =
    main_lem 8080 [] "meshpad" ("-v" ∷ []) [] (omega arith) (λ e. omega (arith, e)) (λ e. cc, tt)

served : main (some "8080") [] ≡ some 0
unfolding main parse_u16
served = refl

taken : main (some "7") [] ≡ some 1
unfolding main parse_u16
taken = refl
