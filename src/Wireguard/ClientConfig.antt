-- ===== src/Wireguard/ClientConfig.antt =====
-- `BuildPeerConfig` and `GenerateQRCode` of internal/wireguard/service.go.
use controlplane.Prelude.{
  text_or_empty, ℕ, Option, none, some, [], ◌∷◌, ◌++◌, if◌then◌else◌, Text, codes, is_empty,
}
use controlplane.Wireguard.Service.{decrypt_psk}
use controlplane.Wireguard.Model.{Peer, Services, Config}

abbrev pub default_addr_bits : ℕ
default_addr_bits = 24

abbrev pub Network : Type 0
Network = Text × Text × ℕ

-- The DNS address, the allowed addresses and the length of the mask.
abbrev pub network_or_default : Config → Option Network → Network
network_or_default c none = (c.dns_addr, c.network_cidr, default_addr_bits)
network_or_default c (some n) = n

abbrev pub end_line : Text → Text
end_line rest = 10 ∷ rest

abbrev pub psk_line : Option Text → Text → Text
psk_line none rest = rest
psk_line (some psk) rest = codes "PresharedKey = " ++ (psk ++ end_line rest)

abbrev pub sealed_psk_line : Services → Config → Text → Text → Text
sealed_psk_line v c sealed rest =
    if is_empty sealed then rest else psk_line (decrypt_psk v c sealed) rest

abbrev pub interface_lines : Services → Network → Peer → Text → Text → Text
interface_lines v n p private_key rest =
    codes "[Interface]"
    ++ end_line (
        codes "Address = "
        ++ (p.wg_ip
            ++ (codes "/"
                ++ (v.show_number n.2
                    ++ end_line (
                        codes "PrivateKey = "
                        ++ (private_key
                            ++ end_line (codes "DNS = " ++ (n.0 ++ end_line (end_line rest)))))))))

abbrev pub hub_lines : Services → Config → Network → Text
hub_lines v c n =
    codes "AllowedIPs = "
    ++ (n.1
        ++ end_line (
            codes "Endpoint = "
            ++ (c.hub_endpoint
                ++ end_line (
                    codes "PersistentKeepalive = " ++ (v.show_number c.keepalive ++ end_line [])))))

abbrev pub config_lines : Services → Config → Network → Peer → Text → Text
config_lines v c n p private_key = interface_lines v n p private_key (
    codes "[Peer]"
    ++ end_line (
        codes "PublicKey = "
        ++ (c.hub_public_key
            ++ end_line
                (sealed_psk_line v c (text_or_empty p.preshared_key_encrypted) (hub_lines v c n)))))

-- A preshared key that cannot be opened is left out.
unfoldable pub build_peer_config : Services → Config → Peer → Text → Text
build_peer_config v c p private_key =
    config_lines v c (network_or_default c (v.network c.network_cidr)) p private_key

abbrev pub generate_qr_code : Services → Text → Option Text
generate_qr_code v config = v.qr_code config
