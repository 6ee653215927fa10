-- ===== src/Options/Start/Address.antt =====
-- pkg/options/options.go: the address that GetPrivateIp takes.
use winchaos.Base.{
  String, not, ◌&&◌, List, [], ◌∷◌, ◌++◌, Option, none, some, if◌then◌else◌, ◌≡◌, refl, arith,
}
use winchaos.Base.Exec.{Result, value, failure}
use winchaos.Options.Start.{
  Ip, Addr, ip_net, ip_addr, other_addr, Interface, ip_of, usable, or_go_on, first_address,
  address_of, first_of, get_private_ip,
}

-- The addresses that qualify: of every interface that is up and no loopback, the texts of the IPv4
-- addresses that are no loopback, in their order.
abbrev listed : Option String → List String
listed none = []
listed (some ip) = ip ∷ []

abbrev outer : Ip → List String
outer ip = if ip.is_loopback then [] else listed ip.to4

abbrev qualified : Addr → List String
qualified (ip_net ip) = outer ip
qualified (ip_addr ip) = outer ip
qualified other_addr = []

abbrev addresses : List Addr → List String
addresses [] = []
addresses (a ∷ addrs) = qualified a ++ addresses addrs

abbrev of_result : Result (List Addr) → List String
of_result (value addrs) = addresses addrs
of_result (failure x) = []

abbrev pub candidates : List Interface → List String
candidates [] = []
candidates (i ∷ ifs) =
    (if i.is_up && not i.is_loopback then of_result i.addrs else []) ++ candidates ifs

abbrev pub head? : List String → Option String
head? [] = none
head? (ip ∷ ips) = some ip

head?-append : (l m : List String) → head? (l ++ m) ≡ or_go_on (head? l) (head? m)
head?-append [] m = refl
head?-append (ip ∷ l) m = refl

head?-listed : (o : Option String) → head? (listed o) ≡ o
head?-listed none = refl
head?-listed (some ip) = refl

usable-none : usable none ≡ none
unfolding usable
usable-none = refl

outer-usable : (ip : Ip) → usable (some ip) ≡ head? (outer ip)
unfolding usable
outer-usable ip = ground (arith, head?-listed ip.to4)

qualified-usable : (a : Addr) → usable (ip_of a) ≡ head? (qualified a)
unfolding ip_of
qualified-usable (ip_net ip) = outer-usable ip
qualified-usable (ip_addr ip) = outer-usable ip
qualified-usable other_addr = usable-none

first_address-head : (addrs : List Addr) → first_address addrs ≡ head? (addresses addrs)
unfolding first_address
first_address-head [] = refl
first_address-head (a ∷ addrs) =
    rw (head?-append, ← qualified-usable, ← first_address-head addrs) refl

address_of-head : (r : Result (List Addr)) → address_of r ≡ head? (of_result r)
unfolding address_of
address_of-head (value addrs) = first_address-head addrs
address_of-head (failure x) = refl

first_of-head : (ifs : List Interface) → first_of ifs ≡ head? (candidates ifs)
unfolding first_of
first_of-head [] = refl
first_of-head (i ∷ ifs) =
    rw (head?-append, ← first_of-head ifs) (ground (arith, address_of-head i.addrs))

-- `GetPrivateIp` returns the first of the addresses that qualify, interface by interface, and ends
-- the process where there is none.
pub get_private_ip-candidates :
    (ifs : List Interface) → get_private_ip (value ifs) ≡ head? (candidates ifs)
unfolding get_private_ip
get_private_ip-candidates ifs = first_of-head ifs
