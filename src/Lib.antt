-- ===== src/Lib.antt =====
-- Models of domain-gateway, which gives names synthetic addresses in a tailnet, and routes flows to
-- these addresses to the gateway that a policy chooses for the name.
--
-- A DNS query (internal/dnsudp/server.go) is parsed and put to a decision: the policy
-- (internal/domain/domain.go) says from which ranges a name gets an address, the allocator of the
-- same file assigns it, and the answer is written. A flow to that address is looked up in the
-- allocator, authorized by the policy, and sent through the resolver that GatewayFor selects.
--
-- The files:
-- - Common: shared names; Boolean tests, lists and equality tests over the native numbers.
-- - GoText: what the program uses of Go's packages strings and strconv, over bytes.
-- - Net: what it uses of net/netip, with addresses as numbers; containsPrefix of
--   internal/domain/service.go is `contains_prefix`.
-- - Name: validName, NormalName and match of internal/domain/domain.go. Lower case of text that is
--   not ASCII is a parameter.
-- - Port: allowedPort and validPorts of that file.
-- - Resolver: normalizeResolver of that file, IsSystemResolver of internal/domain/upstream.go, and
--   the functions of Go's package net they call; net.ParseIP is a parameter.
-- - Upstream: ConfigFromNodeAttrs of internal/domain/upstream.go as `config_from_node_attrs`.
-- - Policy: the types Resource, Grant and Gateway; GatewayFor with its loops as `over_grants` and
--   `over_resources`, whose body is `candidate` and `consider`; Authorize, RangesForName and
--   samePrefixSlice. The local variables of GatewayFor are the record `Choice`. Policy/Decode has
--   UnmarshalJSON of Resource and Grant, and Parse, whose body is `parse_entry`.
-- - Alloc: the type Allocator with all its methods in domain.go, by explicit state passing. The
--   loops of Allocate are `from_start` and `pick`, and `choose` is its choice of an address.
--   Alloc/Disk has its Load and Save of internal/domain/state.go, on a small model of two files.
--   Alloc/Fresh is about gateways that have one range each.
-- - Store: SQLStore of internal/domain/state.go over a table that is a list of rows, as `sql_allocate`,
--   `sql_lookup`, `sql_lookup_key` and `renew`. A monad passes the state, a schedule says which
--   statements fail and what other instances do to the table before each, and what was changed before
--   an error stays. Save is a transaction and one step. Store/Snapshot has its Save and Load,
--   and Store/Open has OpenAllocationStore with its migration (`open_store`) and sqlitePath. Store/Shared
--   is about the instances on one table, whose statements interleave (Store/Others says how), and about
--   names that the cache holds.
-- - Lifecycle: AllocationLifecycle of that file, which puts the allocator behind the store, or
--   keeps it alone. Lifecycle/Instances is about instances of the DNS role over one store.
-- - Service: DNSAnswer, PTRMapping, Flow, FlowDomain and gatewayForDestination of
--   internal/domain/service.go, ProxyTCP of internal/domain/gateway.go up to its choice of a resolver
--   (`proxy_tcp`). It takes the mappings by the interface `Mappings`, which Lifecycle fills.
--   Service/Connect has the rest of ProxyTCP up to the address that it connects to, with proxy and
--   originalDestination. Service/Accept is ServeTCP.
--   Service/Callback has the callback of runDNS in cmd/domain-gateway/main.go (`decide`), and
--   Service/Served puts it into the server of Dns/Serve.
-- - Tags: TagExpression and ResolveTags of internal/domain/tags.go, and in Tags/Inventory what
--   service.go reads of the local daemon's status.
-- - Dns: parseQuestion, Respond, the answers and ReverseIPv4 of internal/dnsudp/server.go. Dns/Serve is
--   Serve with forward as a machine: an event says what a socket does or which handler moves, so a
--   list of events is any interleaving. Dns/Source is sourceIP.
-- - Transport: openTailnetTransport of cmd/domain-gateway/transport.go. Transport/Daemon is LocalAPI
--   of service.go, Transport/Tsnet is TSNetIdentity of internal/domain/tsnet.go, and
--   Transport/Userspace is ServeTSNetGateway of internal/domain/tsnet_gateway.go, as the list of
--   the states that the node goes through.
-- - Command: what parseCommand of cmd/domain-gateway/main.go checks behind its flags, and the
--   functions of that file on resolvers, interfaces and paths.
-- - Roles: parseCommand and main. Roles/Egress is runEgress (`run_egress`) and Roles/Naming runDNS
--   (`run_dns`), up to where they serve, with what they serve with as their result; Roles/Egress/Names
--   is lookupPTR, and Roles/Egress/Connects is what an instance that runs does with a flow.
-- Each component has its laws in child modules, and runs at concrete inputs in its Examples.
--
-- Loops are structural recursion, but for two that have fuel. The labels of a DNS name take the length
-- of the packet, which is enough as each round moves forward in it. The addresses of a range take
-- the number of addresses that the range holds, of which the loop skips the first. Words keep their
-- wrap-around: the port in allowedPort modulo 2^64, an octet in ReverseIPv4 modulo 2^16, a counter
-- of the service modulo 2^64, an expiry in the table, which is the bits of an int64.
--
-- Parameters are encoding/json, hujson, the package flag, url.Parse, netip.ParsePrefix, netip.ParseAddr,
-- netip.ParseAddrPort, Addr.String, net.ParseIP, net.ResolveUDPAddr, time.ParseDuration, strings.Fields,
-- filepath.Clean, sort.Slice, fmt.Sprint of a port, the reading of files, net/http and the clients of
-- tailscale; the answers of the tailnet, of a resolver and of the PTR lookup are arguments.
--
-- Not modelled: the copying of bytes behind the connection of ProxyTCP in
-- internal/domain/gateway.go, and SQLStore's Close, which are input and output; the deadlines of
-- sockets, of which a passed one is an error of the call; the dialer that a resolver's query goes
-- through, beyond the choice of it. Locks are not modelled: each method of the allocator and each
-- call of a DNS callback is one step, while each statement of the store is a step of its own.
mod Common
pub mod GoText
pub mod Name
pub mod Port
pub mod Net
pub mod Resolver
pub mod Policy
pub mod Alloc
pub mod Dns
pub mod Tags
pub mod Upstream
pub mod Command
pub mod Store
pub mod Lifecycle
pub mod Service
pub mod Transport
pub mod Roles
