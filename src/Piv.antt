-- ===== src/Piv.antt =====
-- yubiwallet/src/piv.rs: the PIV applet. BER-TLV, the pure helpers, and the operations on the card.
pub mod Tlv
pub mod Data
pub mod Card
