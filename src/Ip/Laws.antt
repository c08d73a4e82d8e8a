-- ===== src/Ip/Laws.antt =====
-- The IPs that are found in two node names.
use test_powerstore_automati.Base.{◌≡◌, refl, [], ◌∷◌}
use test_powerstore_automati.Ip.{get_ip_list_from_string}

node_ips : get_ip_list_from_string "csi-node-10.0.256.14.7-1.2.3.4" ≡ "1.2.3.4" ∷ []
unfolding get_ip_list_from_string
node_ips = refl

two_ips : get_ip_list_from_string "n-255.249.19.200x10.0.0.1" ≡ "255.249.19.200" ∷ "10.0.0.1" ∷ []
unfolding get_ip_list_from_string
two_ips = refl
