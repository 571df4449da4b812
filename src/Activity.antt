-- ===== src/Activity.antt =====
-- The activity classifier: src/activity_classifier.h and src/activity_classifier.cpp.
pub mod Classifier
pub mod Level
