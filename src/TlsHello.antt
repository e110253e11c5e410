-- ===== src/TlsHello.antt =====
-- lib/source/Sockets/TlsHello.cpp: how PeekClientHello reads the server name and the protocols
-- out of the bytes of a ClientHello. BoringSSL runs the handshake; what it hands to the two
-- callbacks is an argument here. A read outside the extension is `none`.
pub mod Parse
pub mod Handshake
pub mod Alpn
pub mod Sni
pub mod Peek
mod Tests
