-- ===== src/Lib.antt =====
-- GCAD's security core: what its engines observe, from the bus to the candidates for quarantine,
-- and the arithmetic on which its own check of signatures rests.
--
-- The parts and how they interact. Engines publish observations on the telemetry bus. The pipeline's
-- worker takes them off, oldest first, and gives each to the correlation engine, which keeps for
-- every target the sources that saw it, scores them, and reports a finding where the score has grown.
-- The policy engine turns a finding into a candidate for quarantine or into none; the pipeline keeps
-- the candidates until a person approves or rejects them. Apart from these, the check of a file's
-- signature reads DER, the signature's blob and its certificates, hashes the image that the signature
-- covers, verifies RSA signatures with big integers, and walks from the signer's certificate to a
-- root. Events of the older engines become observations through the adapter, and alerts in the alert
-- manager, which a person reads and acknowledges. The quarantine executor moves the file of an
-- approved candidate into the vault, and back or to its end. Of the detectors there is the search of
-- a buffer for the strings of YARA rules.
--
--   Base/*                 Boolean tests, lists over the native numbers, byte strings, dictionaries,
--                          bits.
--   Common                 include/gcad/common.hpp: ErrorCode, ThreatLevel, ThreatCategory, ThreatEvent.
--   Hash                   include/gcad/common.hpp: SHA256 and SHA384.
--   Pool                   include/gcad/common.hpp: ThreadPool, its steps under every interleaving.
--   Alerts                 include/gcad/alert/alert_manager.hpp, src/alert/alert_manager.cpp; Alerts/Threads
--                          has the steps of several threads.
--   Security/Observation   include/gcad/security/observation.hpp.
--   Security/Policy        include/gcad/security/policy.hpp, src/security/policy.cpp.
--   Security/Telemetry     include/gcad/security/telemetry_bus.hpp, src/security/telemetry_bus.cpp.
--   Security/Correlation   include/gcad/security/correlation_engine.hpp,
--                          src/security/correlation_engine.cpp.
--   Security/Pipeline      include/gcad/security/security_pipeline.hpp,
--                          src/security/security_pipeline.cpp.
--   Security/Bignum        include/gcad/security/bignum.hpp, src/security/bignum.cpp.
--   Engines/Yara           include/gcad/engines/yara_engine.hpp, src/engines/yara_engine.cpp; Yara/Scan has the
--                          condition of a rule and the scan.
--   Security/Asn1          include/gcad/security/asn1.hpp, src/security/asn1.cpp.
--   Security/Rsa           include/gcad/security/rsa_pkcs1.hpp, src/security/rsa_pkcs1.cpp.
--   Security/Reading       reads of foreign bytes, for the parsers.
--   Security/X509          include/gcad/security/x509.hpp, src/security/x509.cpp.
--   Security/Pkcs7         include/gcad/security/pkcs7.hpp, src/security/pkcs7.cpp.
--   Security/TrustAnchors  include/gcad/security/trust_anchors.hpp, src/security/trust_anchors.cpp, with
--                          the DER of each root in a module of its own.
--   Security/Authenticode  include/gcad/security/authenticode.hpp, src/security/authenticode.cpp.
--   Security/PeHash        include/gcad/security/pe_authenticode_hash.hpp,
--                          src/security/pe_authenticode_hash.cpp.
--   Security/LegacyAdapter include/gcad/security/legacy_adapter.hpp, src/security/legacy_adapter.cpp.
--   Security/PolicyStore   include/gcad/security/policy_store.hpp, src/security/policy_store.cpp.
--   Security/Quarantine    include/gcad/security/quarantine_executor.hpp,
--                          src/security/quarantine_executor.cpp; the file system is a parameter.
--                          Quarantine/File has the lines of the ledger's file.
--   Tests/*                concrete runs.
-- A function keeps its name in the source: CorrelationEngine::ingest is Correlation.ingest, BigUInt::mod
-- is Bignum.mod_big (`mod` being an operation on numbers), a constructor of a class is `init`. The child
-- modules of a part hold its proofs and are named for what they prove.
--
-- How state and operations correspond. A class is a record of its members; a method takes the record
-- and returns its answer with the record afterwards. Whatever a method does under its mutex is one step,
-- and so is one turn of the worker's loop: what another thread may do between the worker's pop, its
-- processing and its test of the closed flag is not modelled, nor is what happens between the test of
-- the running flag in SecurityPipeline::publish and the publication. Whether a thread can be spawned,
-- and what the clock shows, are arguments. A std::unordered_map is an association list in the order of
-- insertion, and its walk is shown not to matter to the score. A std::string is a list of bytes.
-- Time points are naturals of nanoseconds. A double is its 64-bit pattern, and the four operations that
-- the code applies to doubles are the parameter `Doubles`, of which IEEE 754's laws `IsIeee` and
-- `IsOrdered` are assumed where a theorem says so.
--
-- Integers. uint32_t and uint64_t results are cut by `% 2 ^ w` where the code may reach the limit
-- (Bignum, the score, tags and lengths of DER); counters of 64 bits that only grow by one are naturals.
--
-- Bounds and fuel. `worker_loop` has fuel, a turn each; one more than the queue holds is enough once
-- the bus is closed. `siblings` of Asn1 has one turn more than the region has bytes, and each element
-- takes two bytes at least. The walk of a chain has the six turns of the source, the length of a SET
-- the eight bytes of a size. `horspool` of Engines/Yara has a turn for each position, `read_loop`
-- of Hash/Sha256 one for each byte of the file, of which a read takes 8192. `top_bits` of Bignum has
-- fuel 33: a limb has 32 bits. All other loops are
-- recursions on the lists or the counts that they walk.
--
-- Files. The policy's file and the ledger's are their bytes, with the lines of Base/Lines and the numbers of
-- Base/Numerals; a start on the ledger's file is `init` of Quarantine/File, while the calls of
-- Quarantine write it through the parameter `Files`.
--
-- Memory. Where code reads a buffer of foreign bytes, a read past its end is the result `fault` of
-- Security/Reading, and theorems show that it does not happen: DER, certificates, signature blobs,
-- PE images. A hash's message is a list of bytes, its buffer the bytes since the last
-- full block; a file is the bytes that it can be read for, and Hash/Sha256 reads it by the buffer of 8192.
--
-- Threads. AlertManager::push takes its number before it takes the mutex: Alerts/Threads makes two steps of
-- it, and its theorems are about every interleaving. Pool has a step for each section under the pool's
-- mutex. Elsewhere a call is one step, as said above.
--
-- Not modelled: the metrics' readers and locks, exceptions for want of memory, logging, the spin
-- lock and the floating-point statistics of include/gcad/common.hpp, what Windows does with a
-- notification, and the other parts of the program: the detectors but for the search of
-- Engines/Yara, the platform layer, reports and the user interface.
pub mod Alerts
pub mod Base
pub mod Common
pub mod Engines
pub mod Hash
pub mod Pool
pub mod Security
pub mod Tests
