-- ===== src/OpenPgp.antt =====
-- yubiwallet/src/openpgp.rs: the OpenPGP applet. The pure helpers, and the operations on the card.
pub mod Data
pub mod Card
