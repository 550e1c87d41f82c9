-- ===== src/Tests/Networks.antt =====
-- net_util.rs at concrete hosts.
use bed_term.Prelude.{◌≡◌, refl, [], ◌∷◌, ◌++◌, arith}
use bed_term.ConnectForm.Address.{is_whitespace}
use bed_term.NetUtil.{Ipv4Addr, is_lan_host}
use bed_term.NetUtil.Ipv4.{dotted}
use bed_term.NetUtil.Local.{address, in_local_network, is_lan_host-dotted}

-- The last address of 172.16/12.
abbrev last_local : Ipv4Addr
last_local = record { one = 172; two = 31; three = 255; four = 255 }

is_lan_host-dotted_example :
    is_lan_host ((b' ' ∷ []) ++ (dotted last_local ++ [])) ≡ in_local_network (address last_local)
unfolding is_whitespace
is_lan_host-dotted_example =
    is_lan_host-dotted (b' ' ∷ []) [] last_local (refl, tt) tt
      (record {
        one_byte = omega arith;
        two_byte = omega arith;
        three_byte = omega arith;
        four_byte = omega arith;
      })
